-- ===== src/Store/Journal/Laws.antt =====
-- How the journal's last records and the order of its events grow with it.
use spark_stage.Base.{
  String, false, some, List, [], ◌∷◌, ◌++◌, Map, ◌≡◌, ◌≢◌, refl, sym, ap, ◌∙◌, arith, eq_iff,
  eq_refl, All, In, lookup, lookup-insert, insert, contains_key, str_eq, append_assoc, append-nil,
  Bool-cases, inl, inr,
}
use spark_stage.Store.Disk.{DecisionJournalRecord}
use spark_stage.Store.Journal.{latest_from, order_from, shown, shown_all, committed_decisions}

abbrev Latest : Type 0
Latest = Map DecisionJournalRecord

pub latest_from-append :
    (m : Latest) (xs ys : List DecisionJournalRecord)
    → latest_from m (xs ++ ys) ≡ latest_from (latest_from m xs) ys
unfolding latest_from
latest_from-append m [] ys = refl
latest_from-append m (x ∷ xs) ys = latest_from-append (insert x.event_id x m) xs ys

pub order_from-append :
    (m : Latest) (xs ys : List DecisionJournalRecord)
    → order_from m (xs ++ ys) ≡ order_from m xs ++ order_from (latest_from m xs) ys
unfolding order_from latest_from
order_from-append m [] ys = refl
order_from-append m (x ∷ xs) ys =
    let later = order_from-append (insert x.event_id x m) xs ys in
    elim (Bool-cases (contains_key x.event_id m)) [
      | inl known ↦ rw known later
      | inr new ↦ rw new (ap (λ l. x.event_id ∷ l) later)
    ]

pub shown_all-append :
    (m : Latest) (xs ys : List String) → shown_all m (xs ++ ys) ≡ shown_all m xs ++ shown_all m ys
unfolding shown_all
shown_all-append m [] ys = refl
shown_all-append m (x ∷ xs) ys =
    rw (shown_all-append m xs ys)
      (rw (append_assoc (shown (lookup x m)) (shown_all m xs) (shown_all m ys)) refl)

-- No record of the journal is of the event.
abbrev pub IsNewEvent : String → List DecisionJournalRecord → Type 0
IsNewEvent id = All (λ r. r.event_id ≢ id)

differs : (a b : String) → a ≢ b → str_eq a b ≡ false
differs a b apart = ground (arith, eq_iff a b, apart)

pub latest_from-new :
    (id : String) (m : Latest) (xs : List DecisionJournalRecord)
    → IsNewEvent id xs
    → lookup id (latest_from m xs) ≡ lookup id m
unfolding latest_from
latest_from-new id m [] new = refl
latest_from-new id m (x ∷ xs) (apart, new) =
    latest_from-new id (insert x.event_id x m) xs new
    ∙ rw lookup-insert (rw (differs id x.event_id (λ e. apart (sym e))) refl)

pub order_from-new :
    (id : String) (m : Latest) (xs : List DecisionJournalRecord)
    → IsNewEvent id xs
    → ¬ In id (order_from m xs)
unfolding order_from
order_from-new id m [] new i = absurd i
order_from-new id m (x ∷ xs) (apart, new) i =
    let later = order_from-new id (insert x.event_id x m) xs new in
    elim (Bool-cases (contains_key x.event_id m)) [
      | inl known ↦ absurd (later (rw (known, order_from) at i))
      | inr fresh ↦ elim (rw (fresh, order_from) at i) [
        | inl e ↦ absurd (apart (sym e))
        | inr j ↦ absurd (later j)
      ]
    ]

-- A record of another event does not change what is shown of these.
pub shown_all-insert :
    (id : String) (r : DecisionJournalRecord) (m : Latest) (ids : List String)
    → ¬ In id ids
    → shown_all (insert id r m) ids ≡ shown_all m ids
unfolding shown_all
shown_all-insert id r m [] apart = refl
shown_all-insert id r m (j ∷ ids) apart =
    rw (shown_all-insert id r m ids (λ i. apart (inr i)))
      (rw lookup-insert (rw (differs j id (λ e. apart (inl (sym e)))) refl))

-- One more record of a new event shows that record, if it is committed.
pub history-snoc :
    (r : DecisionJournalRecord) (xs : List DecisionJournalRecord)
    → IsNewEvent r.event_id xs
    → committed_decisions (xs ++ r ∷ []) ≡ committed_decisions xs ++ shown (some r)
unfolding committed_decisions latest_from order_from shown_all contains_key
history-snoc r xs new =
    let m = latest_from [] xs in
    let ids = order_from [] xs in
    rw (latest_from-append [] xs (r ∷ []), order_from-append [] xs (r ∷ []))
      (rw (latest_from-new r.event_id [] xs new) (
        rw (shown_all-append (insert r.event_id r m) ids (r.event_id ∷ [])) (
          rw (shown_all-insert r.event_id r m ids (order_from-new r.event_id [] xs new))
            (rw lookup-insert (rw (eq_refl r.event_id, append-nil) refl)))))
