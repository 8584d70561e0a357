-- ===== src/Store/Journal/History.antt =====
-- The history of decisions where a crash came before the state was written, or before the decision
-- was committed.
use spark_stage.Base.{
  String, Bool, false, List, [], ◌∷◌, ◌++◌, Map, ◌≡◌, refl, ◌∙◌, arith, eq_iff, eq_refl, ◌&&◌, All,
  lookup-insert, insert, insert-insert, All-insert, All-map, values, retain, contains_key, str_eq,
  append_assoc, append-nil, if◌then◌else◌,
}
use spark_stage.Store.Disk.{prepared, DecisionJournalRecord}
use spark_stage.Store.Journal.{
  latest_from, order_from, shown, shown_all, commit, is_prepared, pending_for, committed_decisions,
  to_decision,
}
use spark_stage.Store.Journal.Laws.{
  IsNewEvent, latest_from-append, order_from-append, latest_from-new, order_from-new,
  shown_all-append, shown_all-insert, history-snoc,
}

-- A decision that is only prepared is hidden.
pub history-prepared :
    (r : DecisionJournalRecord) (xs : List DecisionJournalRecord)
    → IsNewEvent r.event_id xs
    → r.phase ≡ prepared
    → committed_decisions (xs ++ r ∷ []) ≡ committed_decisions xs
unfolding shown
history-prepared r xs new phase = history-snoc r xs new ∙ rw phase (append-nil _)

-- A decision that is committed after it was prepared is the last one shown.
pub history-committed :
    (r : DecisionJournalRecord) (xs : List DecisionJournalRecord)
    → IsNewEvent r.event_id xs
    → committed_decisions ((xs ++ r ∷ []) ++ commit r ∷ [])
      ≡ committed_decisions xs ++ to_decision r ∷ []
unfolding committed_decisions latest_from order_from shown_all shown contains_key commit
history-committed r xs new =
    let m = latest_from [] xs in
    let ids = order_from [] xs in
    let two = r ∷ commit r ∷ [] in
    let m' = insert r.event_id (commit r) (insert r.event_id r m) in
    let apart = order_from-new r.event_id [] xs new in
    rw (append_assoc xs (r ∷ []) (commit r ∷ [])) (
      rw (latest_from-append [] xs two, order_from-append [] xs two)
        (rw (latest_from-new r.event_id [] xs new, lookup-insert, eq_refl r.event_id)
          (rw (shown_all-append m' ids (r.event_id ∷ [])) (
            rw
              (
                shown_all-insert r.event_id (commit r) (insert r.event_id r m) ids apart,
                shown_all-insert r.event_id r m ids apart,
              )
              (rw lookup-insert (rw (eq_refl r.event_id) refl))))))

-- No record of the journal is of the command.
abbrev pub IsNewCommand : String → List DecisionJournalRecord → Type 0
IsNewCommand command_id = All (λ r. str_eq r.command_id command_id ≡ false)

abbrev pub waits_for : String → DecisionJournalRecord → Bool
waits_for command_id r = is_prepared r.phase && str_eq r.command_id command_id

latest_from-All :
    (P : String × DecisionJournalRecord → Type 0) (m : Map DecisionJournalRecord)
    (xs : List DecisionJournalRecord)
    → All P m
    → All (λ r. P (r.event_id, r)) xs
    → All P (latest_from m xs)
unfolding latest_from
latest_from-All P m [] h all = h
latest_from-All P m (x ∷ xs) h (first, all) =
    latest_from-All P (insert x.event_id x m) xs (All-insert P x.event_id x m first h) all

module _ (p : DecisionJournalRecord → Bool) where
  retain-none :
      (m : Map DecisionJournalRecord) → All (λ e. p e.1 ≡ false) m → retain p (values m) ≡ []
  unfolding retain
  retain-none [] h = refl
  retain-none (e ∷ m) (first, h) = rw first (retain-none m h)

  retain-insert :
      (k : String) (v : DecisionJournalRecord) (m : Map DecisionJournalRecord)
      → All (λ e. p e.1 ≡ false) m
      → retain p (values (insert k v m)) ≡ (if p v then v ∷ [] else [])
  unfolding retain insert
  retain-insert k v [] h = refl
  retain-insert k v ((j, w) ∷ m) (first, h) =
      ground (arith, first, retain-none m h, retain-insert k v m h)

-- Only the decision of a new command waits for it.
pub pending_for-new :
    (command_id : String) (r : DecisionJournalRecord) (xs : List DecisionJournalRecord)
    → IsNewCommand command_id xs
    → r.phase ≡ prepared
    → r.command_id ≡ command_id
    → pending_for command_id (xs ++ r ∷ []) ≡ r ∷ []
unfolding pending_for latest_from
pending_for-new command_id r xs new phase same =
    let m = latest_from [] xs in
    let others : All (λ e. waits_for command_id e.1 ≡ false) m =
      latest_from-All (λ e. waits_for command_id e.1 ≡ false) [] xs tt
        (All-map _ _ xs (λ x apart. ground (arith, apart)) new) in
    rw (latest_from-append [] xs (r ∷ [])) (
      rw (retain-insert (waits_for command_id) r.event_id r m others)
        (rw (phase, (eq_iff r.command_id command_id).1 same) refl))

-- After the commit nothing waits for the command.
pub pending_for-committed :
    (command_id : String) (r : DecisionJournalRecord) (xs : List DecisionJournalRecord)
    → IsNewCommand command_id xs
    → pending_for command_id ((xs ++ r ∷ []) ++ commit r ∷ []) ≡ []
unfolding pending_for latest_from commit
pending_for-committed command_id r xs new =
    let m = latest_from [] xs in
    let others : All (λ e. waits_for command_id e.1 ≡ false) m =
      latest_from-All (λ e. waits_for command_id e.1 ≡ false) [] xs tt
        (All-map _ _ xs (λ x apart. ground (arith, apart)) new) in
    rw (append_assoc xs (r ∷ []) (commit r ∷ [])) (
      rw (latest_from-append [] xs (r ∷ commit r ∷ [])) (
        rw (insert-insert r.event_id (commit r) r m)
          (retain-insert (waits_for command_id) r.event_id (commit r) m others)))
