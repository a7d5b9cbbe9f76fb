-- ===== src/Engine/Spec.antt =====
-- What the engine promises, without a limit or a map's layout: for each key the records since its
-- last removal, oldest first; and the calls that clients make of it.
use lite_speed_store.Base.{
  ℕ, ◌-◌, Bool, true, false, Option, none, some, List, [], ◌∷◌, ◌++◌, length, drop, min, ◌==◌,
  if◌then◌else◌, equal_bytes,
}
use lite_speed_store.Engine.{
  Record, StorageEngine, Reply, done, failed, set, remove, back, unlimited_history,
}
use lite_speed_store.Engine.Answers.{new_record}
use lite_speed_store.Engine.Table.{history_of}

abbrev pub Histories : Type 0
Histories = List ℕ → Option (List Record)

pub data Call : Type 0 where
  set_call : (key value duration : List ℕ) (now : ℕ) → Call
  remove_call : (key : List ℕ) (now : ℕ) → Call

unfoldable pub promised : Call → Histories → Histories
unfolding history_of
promised (set_call key value duration now) s = λ k.
    if equal_bytes k key
    then some (history_of (s key) ++ new_record value duration now ∷ [])
    else s k
promised (remove_call key now) s = λ k. if equal_bytes k key then none else s k

unfoldable pub promised_all : List Call → Histories → Histories
unfolding promised
promised_all [] s = s
promised_all (c ∷ calls) s = promised_all calls (promised c s)

-- The newest records, as many as the limit allows.
unfoldable pub newest : ℕ → List Record → List Record
newest limit h = if limit == unlimited_history then h else drop (length h - limit) h

-- What the queries are to answer.
unfoldable pub latest : Option (List Record) → Option (List ℕ)
unfolding back
latest none = none
latest (some h) = elim (back h) [ none ↦ none | some r ↦ some r.value ]

unfoldable pub retained : ℕ → Option (List Record) → ℕ
retained limit none = 0
retained limit (some h) = if limit == unlimited_history then length h else min limit (length h)

unfoldable pub returns {ℓ} : {A : Type ℓ} → Reply A → Bool
returns (done a) = true
returns (failed x) = false

-- Whether the call returned, and the engine after it.
unfoldable pub perform : Call → StorageEngine → Bool × StorageEngine
unfolding returns
perform (set_call key value duration now) e =
    let (reply, e') = set e key value duration now in (returns reply, e')
perform (remove_call key now) e = let (reply, e') = remove e key now in (returns reply, e')

-- The calls, one after the other: those that returned, and the engine at the end.
unfoldable pub perform_all : List Call → StorageEngine → List Call × StorageEngine
unfolding perform
perform_all [] e = ([], e)
perform_all (c ∷ calls) e =
    let (returned, e1) = perform c e in
    let (committed, e2) = perform_all calls e1 in
    (if returned then c ∷ committed else committed, e2)
