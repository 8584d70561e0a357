-- ===== src/Domain/Script.antt =====
-- The external shot contract: src/domain/script.rs.
use spark_stage.Base.{ℕ, String, Bool, Option, List, Map}

pub data Operation : Type 0 where
  t2v i2v flf2v r2v : Operation

pub data ScreenDirection : Type 0 where
  left right center : ScreenDirection

pub data ContinuityRelation : Type 0 where
  continuous cut new_scene time_jump : ContinuityRelation

pub data Handoff : Type 0 where
  none stable_frame approved_frame : Handoff

pub data ContinuityAttribute : Type 0 where
  wardrobe location prop_state character_position lighting : ContinuityAttribute

pub data Risk : Type 0 where
  low medium high : Risk

pub data Promotion : Type 0 where
  auto manual : Promotion

pub record DeliverySpec : Type 0 where
  pub width : ℕ
  pub height : ℕ
  pub fps : ℕ

pub record ProjectSpec : Type 0 where
  pub id : String
  pub title : String
  pub logline : String
  pub genre : String
  pub language : String
  pub target_duration_seconds : ℕ
  pub shot_count : ℕ
  pub delivery : DeliverySpec
  pub content_boundaries : List String

pub record Character : Type 0 where
  pub id : String
  pub name : String
  pub age : ℕ
  pub fictional : Bool
  pub appearance : String
  pub wardrobe : String
  pub personality : String

pub record Location : Type 0 where
  pub id : String
  pub name : String
  pub description : String

pub record Bible : Type 0 where
  pub characters : List Character
  pub locations : List Location
  pub style : String

pub record Story : Type 0 where
  pub synopsis : String
  pub beats : List String

pub record Camera : Type 0 where
  pub shot_size : String
  pub movement : String
  pub screen_direction : Map ScreenDirection

pub record Conditioning : Type 0 where
  pub first_frame : Option String
  pub last_frame : Option String
  pub reference_images : List String
  pub reference_video : Option String

pub record Continuity : Type 0 where
  pub from : Option String
  pub relation : ContinuityRelation
  pub handoff : Handoff
  pub must_match : List ContinuityAttribute
  pub state_in : Map String
  pub state_out : Map String

pub record GenerationPlan : Type 0 where
  pub risk : Risk
  pub audition_takes : ℕ
  pub audition_profile : String
  pub final_profile : String
  pub promotion : Promotion

pub record DialogueLine : Type 0 where
  pub who : String
  pub text : String

pub record ShotContract : Type 0 where
  pub schema_version : String
  pub id : String
  pub title : String
  pub duration : ℕ
  pub width : ℕ
  pub height : ℕ
  pub fps : ℕ
  pub operation : Operation
  pub characters : List String
  pub location : String
  pub camera : Camera
  pub conditioning : Option Conditioning
  pub continuity : Continuity
  pub generation_plan : GenerationPlan
  pub dialogue : List DialogueLine
  pub prompt : String

pub record AuthoringMetadata : Type 0 where
  pub skill : String
  pub agent_host : Option String
  pub model : Option String

pub record ScriptBundle : Type 0 where
  pub schema_version : String
  pub project : ProjectSpec
  pub bible : Bible
  pub story : Story
  pub shots : List ShotContract
  pub authoring : Option AuthoringMetadata
