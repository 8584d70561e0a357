-- ===== src/Store/Jobs/Sound.antt =====
-- Queueing and releasing a shot keep a state coherent, and what a job must be to be queued.
use spark_stage.Base.{
  ℕ, String, true, Option, none, some, Map, ◌≡◌, refl, sym, arith, OnSome, OnSome-map,
  lookup-contains_key, lookup, contains_key, any, str_eq, not, not-eq_true, ok, guard, guard_iff,
  ok_or, ok_or-eq_ok, then_iff, >>=-eq-ok, ok_injective,
}
use spark_stage.Domain.Script.{ScriptBundle}
use spark_stage.Domain.Project.{JobJournal, ShotRuntimeState, TakeMetadata}
use spark_stage.Domain.State.{ProjectState}
use spark_stage.Domain.Validate.Validity.{core, IsCoherent, IsShot, IsUsable}
use spark_stage.Store.Errors.{no_active_contract, shot_not_found}
use spark_stage.Store.Support.{
  is_job_id, validate_job_id, is_queued, is_new_job, validate_job, not_new_job,
}
use spark_stage.Store.Decisions.Guards.{ensure_idle}
use spark_stage.Store.Decisions.Coherence.{KeepsTakes, usable-change, update-IsCoherent}
use spark_stage.Store.Jobs.Changes.{
  read_contract_bundle, check_promotion, queue_shot, queued_state, other_contract, job_exists,
  enqueue_change, release_shot, released_state,
}

decided-usable :
    (takes : Map TakeMetadata) (change : ShotRuntimeState → ShotRuntimeState) (v : ShotRuntimeState)
    (o : Option String)
    → KeepsTakes change
    → OnSome (IsUsable takes v) o
    → OnSome (IsUsable takes (change v)) o
decided-usable takes change v o keeps =
    OnSome-map (IsUsable takes v) (IsUsable takes (change v)) o (usable-change takes change keeps v)

module _ (job_id : String) (target : Option ℕ) where
  queue-KeepsTakes : KeepsTakes (queue_shot job_id target)
  unfolding queue_shot
  queue-KeepsTakes = record { listed = λ v. refl; rejected = λ v. refl }

  queue-IsShot :
      (takes : Map TakeMetadata) (shot_id : String) (v : ShotRuntimeState)
      → IsShot takes (shot_id, v)
      → IsShot takes (shot_id, queue_shot job_id target v)
  unfolding queue_shot
  queue-IsShot takes shot_id v p = record {
    key = p.key;
    distinct = p.distinct;
    belong = p.belong;
    rejected = p.rejected;
    selected = decided-usable takes (queue_shot job_id target) v _ queue-KeepsTakes p.selected;
    approved = decided-usable takes (queue_shot job_id target) v _ queue-KeepsTakes p.approved;
    approved_selected = p.approved_selected;
  }

release-KeepsTakes : KeepsTakes release_shot
unfolding release_shot
release-KeepsTakes = record { listed = λ v. refl; rejected = λ v. refl }

release-IsShot :
    (takes : Map TakeMetadata) (shot_id : String) (v : ShotRuntimeState)
    → IsShot takes (shot_id, v)
    → IsShot takes (shot_id, release_shot v)
unfolding release_shot
release-IsShot takes shot_id v p = record {
  key = p.key;
  distinct = p.distinct;
  belong = p.belong;
  rejected = p.rejected;
  selected = decided-usable takes release_shot v _ release-KeepsTakes p.selected;
  approved = decided-usable takes release_shot v _ release-KeepsTakes p.approved;
  approved_selected = p.approved_selected;
}

pub queued-IsCoherent :
    (job : JobJournal) (target : Option ℕ) (s : ProjectState)
    → IsCoherent (core s)
    → IsCoherent (core (queued_state job target s))
queued-IsCoherent job target s h =
    update-IsCoherent job.shot_id (queue_shot job.job_id target) s
      (queue-KeepsTakes job.job_id target)
      (λ v _ p. queue-IsShot job.job_id target s.takes job.shot_id v p) h

pub released-IsCoherent :
    (shot_id : String) (s : ProjectState)
    → IsCoherent (core s)
    → IsCoherent (core (released_state shot_id s))
released-IsCoherent shot_id s h =
    update-IsCoherent shot_id release_shot s release-KeepsTakes
      (λ v _ p. release-IsShot s.takes shot_id v p) h

-- What the checks of `enqueue_job` tell.
pub record IsQueueable (jobs : Map JobJournal) (job : JobJournal) (s : ProjectState) : Type 0 where
  pub shot : ShotRuntimeState
  pub found : lookup job.shot_id s.shots ≡ some shot
  pub idle : shot.active_job_id ≡ none
  pub id : is_job_id job.job_id ≡ true
  pub state : is_queued job.state ≡ true
  pub fresh : lookup job.job_id jobs ≡ none

ensure_idle_inverse :
    (shot_id : String) (o : Option String) → ensure_idle shot_id o ≡ ok tt → o ≡ none
unfolding ensure_idle
ensure_idle_inverse shot_id none h = refl
ensure_idle_inverse shot_id (some id) h = cc

new_job-queued :
    (job : JobJournal) (project_id command_id : String)
    → is_new_job job project_id command_id ≡ true
    → is_queued job.state ≡ true
unfolding is_new_job
new_job-queued job project_id command_id h = ground (arith, h)

validate_job_id_inverse : (id : String) → validate_job_id id ≡ ok tt → is_job_id id ≡ true
unfolding validate_job_id
validate_job_id_inverse id h = ground (arith, h)

pub enqueue_change_inverse :
    (bundles : Map ScriptBundle) (jobs : Map JobJournal) (job : JobJournal) (command_id : String)
    (target : Option ℕ) (s t : ProjectState)
    → enqueue_change bundles jobs job command_id target s ≡ ok t
    → IsQueueable jobs job s × (t ≡ queued_state job target s)
unfolding enqueue_change validate_job
enqueue_change_inverse bundles jobs job command_id target s t h =
    let (active, _, h₁) = >>=-eq-ok (ok_or s.active_contract_id no_active_contract) _ h in
    let (_, h₂) = (then_iff (guard (str_eq job.contract_id active) other_contract) _ t).0 h₁ in
    let (bundle, _, h₃) = >>=-eq-ok (read_contract_bundle bundles s active) _ h₂ in
    let listed = any (λ shot. str_eq shot.id job.shot_id) bundle.shots in
    let (_, h₄) = (then_iff (guard listed (shot_not_found job.shot_id)) _ t).0 h₃ in
    let promotion = check_promotion job s job.parent_take_id job.promotion_strategy in
    let (_, h₅) = (then_iff promotion _ t).0 h₄ in
    let (shot, found, h₆) =
      >>=-eq-ok (ok_or (lookup job.shot_id s.shots) (shot_not_found job.shot_id)) _ h₅ in
    let (idle, h₇) = (then_iff (ensure_idle job.shot_id shot.active_job_id) _ t).0 h₆ in
    let (checked, h₈) = (then_iff (validate_job job s.project_id command_id) _ t).0 h₇ in
    let new = guard (is_new_job job s.project_id command_id) not_new_job in
    let (named, is_new) = (then_iff (validate_job_id job.job_id) new tt).0 checked in
    let absent = guard (not (contains_key job.job_id jobs)) (job_exists job.job_id) in
    let (fresh, h₉) = (then_iff absent _ t).0 h₈ in
    (
      record {
        shot = shot;
        found = ok_or-eq_ok (lookup job.shot_id s.shots) _ found;
        idle = ensure_idle_inverse job.shot_id shot.active_job_id idle;
        id = validate_job_id_inverse job.job_id named;
        state = new_job-queued job s.project_id command_id ((guard_iff _ _).0 is_new);
        fresh = lookup-contains_key job.job_id jobs (not-eq_true _ ((guard_iff _ _).0 fresh));
      },
      sym (ok_injective h₉),
    )
