-- ===== src/Examples/Script.antt =====
-- A script with one long shot, for which the budget of the example project does not suffice.
use spark_stage.Base.{none, [], ◌∷◌}
use spark_stage.Domain.Script.{
  Operation, ContinuityRelation, Handoff, Risk, Promotion, ShotContract, ScriptBundle,
}

abbrev pub long_shot : ShotContract
long_shot = record {
  schema_version = "1.0";
  id = "S01";
  title = "Opening";
  duration = 200;
  width = 1280;
  height = 720;
  fps = 24;
  operation = Operation.t2v;
  characters = [];
  location = "L01";
  camera = record { shot_size = "wide"; movement = "static"; screen_direction = [] };
  conditioning = none;
  continuity = record {
    from = none;
    relation = ContinuityRelation.new_scene;
    handoff = Handoff.none;
    must_match = [];
    state_in = [];
    state_out = [];
  };
  generation_plan = record {
    risk = Risk.low;
    audition_takes = 2;
    audition_profile = "audition";
    final_profile = "final";
    promotion = Promotion.manual;
  };
  dialogue =
      record { who = "Ada"; text = "We begin." } ∷ record { who = "Bo"; text = "At last." } ∷ [];
  prompt = "A wide street";
}

abbrev pub bundle : ScriptBundle
bundle = record {
  schema_version = "1.0";
  project = record {
    id = "demo";
    title = "Demo";
    logline = "A beginning";
    genre = "drama";
    language = "en";
    target_duration_seconds = 200;
    shot_count = 1;
    delivery = record { width = 1280; height = 720; fps = 24 };
    content_boundaries = [];
  };
  bible = record { characters = []; locations = []; style = "plain" };
  story = record { synopsis = "A beginning"; beats = [] };
  shots = long_shot ∷ [];
  authoring = none;
}
