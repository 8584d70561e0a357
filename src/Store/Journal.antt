-- ===== src/Store/Journal.antt =====
-- The decision journal of src/store/project/decisions.rs: a decision is prepared before the state is
-- written, committed after it, and recovered where a crash came between.
pub mod Laws
pub mod History
use Prim.Native.String.{◌++◌ as str_append}
use spark_stage.Base.{
  ℕ, String, Bool, true, false, Option, none, some, List, [], ◌∷◌, ◌++◌, ◌&&◌, not, leb, Map, map,
  values, str_eq, is_some, lookup, contains_key, insert, retain, Result, ok, err, if◌then◌else◌,
}
use mathlib.Core.List.{reverse}
use spark_stage.Domain.State.{ProjectState}
use spark_stage.Store.Errors.{StoreError, invalid_history_limit}
use spark_stage.Store.Disk.{
  Phase, prepared, committed, DecisionJournalRecord, Disk, Action, ◌>>=◌, ◌>>◌, pure, lift, get,
  put,
}

-- `DecisionRecord`: a decision as the history shows it.
pub record DecisionRecord : Type 0 where
  pub event_id : String
  pub kind : String
  pub subject_id : String
  pub command_id : String
  pub occurred_at : String

-- The new id that `Ulid::new()` gives is an argument.
unfoldable pub new_decision : String → String → String → String → String → DecisionJournalRecord
new_decision ulid kind subject_id command_id now = record {
  event_id = str_append "DEC-" ulid;
  kind = kind;
  subject_id = subject_id;
  command_id = command_id;
  occurred_at = now;
  phase = prepared;
}

-- `append_jsonl` on decisions.jsonl.
unfoldable pub append_decisions : List DecisionJournalRecord → Action (Unit {0})
append_decisions records d = (ok tt, record d { decisions = d.decisions ++ records })

unfoldable pub prepare_decision :
    String → String → String → String → String → Action DecisionJournalRecord
unfolding append_decisions
prepare_decision ulid kind subject_id command_id now =
    let decision = new_decision ulid kind subject_id command_id now in
    append_decisions (decision ∷ []) >> pure decision

-- A journal record of the second phase.
unfoldable pub commit : DecisionJournalRecord → DecisionJournalRecord
commit r = record r { phase = committed }

unfoldable pub commit_decisions : List DecisionJournalRecord → Action (Unit {0})
unfolding append_decisions
commit_decisions [] = pure tt
commit_decisions (r ∷ rest) = append_decisions (commit r ∷ []) >> commit_decisions rest

abbrev pub is_prepared : Phase → Bool
is_prepared prepared = true
is_prepared committed = false

-- The last record of each event, in a map. The source's `HashMap` has no order; this one is visited
-- in the order of its keys.
unfoldable pub latest_from :
    Map DecisionJournalRecord → List DecisionJournalRecord → Map DecisionJournalRecord
latest_from latest [] = latest
latest_from latest (r ∷ rest) = latest_from (insert r.event_id r latest) rest

-- The records that `recover_decisions_for_state` commits.
unfoldable pub pending_for : String → List DecisionJournalRecord → List DecisionJournalRecord
unfolding latest_from
pending_for command_id records =
    retain (λ r. is_prepared r.phase && str_eq r.command_id command_id)
      (values (latest_from [] records))

abbrev pub recover_for : Option String → Action (Unit {0})
recover_for none = pure tt
recover_for (some command_id) = do d ← get; commit_decisions (pending_for command_id d.decisions)

unfoldable pub recover_decisions_for_state : ProjectState → Action (Unit {0})
unfolding pending_for commit_decisions
recover_decisions_for_state s = recover_for s.last_command_id

-- The event ids in the order of their first records.
unfoldable pub order_from : Map DecisionJournalRecord → List DecisionJournalRecord → List String
order_from latest [] = []
order_from latest (r ∷ rest) =
    let later = order_from (insert r.event_id r latest) rest in
    if contains_key r.event_id latest then later else r.event_id ∷ later

abbrev pub to_decision : DecisionJournalRecord → DecisionRecord
to_decision r = record {
  event_id = r.event_id;
  kind = r.kind;
  subject_id = r.subject_id;
  command_id = r.command_id;
  occurred_at = r.occurred_at;
}

-- What the history shows of the last record of an event.
unfoldable pub shown : Option DecisionJournalRecord → List DecisionRecord
shown none = []
shown (some r) = if is_prepared r.phase then [] else to_decision r ∷ []

-- `latest.remove(&event_id)` for each id in turn: an id stands in the order once, so it is found.
unfoldable pub shown_all : Map DecisionJournalRecord → List String → List DecisionRecord
unfolding shown
shown_all latest [] = []
shown_all latest (id ∷ ids) = shown (lookup id latest) ++ shown_all latest ids

unfoldable pub committed_decisions : List DecisionJournalRecord → List DecisionRecord
unfolding latest_from order_from shown_all
committed_decisions records = shown_all (latest_from [] records) (order_from [] records)

abbrev pub truncate {ℓ} : {A : Type ℓ} → ℕ → List A → List A
truncate n [] = []
truncate ℕ.zero (x ∷ xs) = []
truncate (ℕ.suc n) (x ∷ xs) = x ∷ truncate n xs
