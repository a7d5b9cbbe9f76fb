-- ===== src/Engine/Refines.antt =====
-- The engine beside what it promises (Engine/Spec), with its limit.
use lite_speed_store.Base.{
  ℕ, ◌≡◌, refl, sym, ap, ◌∙◌, Bool, true, false, inl, inr, Option, none, some, List, [], ◌∷◌, ◌++◌,
  if◌then◌else◌, length, equal_bytes, equal_bytes→eq, Bool-cases, subst, ◌≢◌, equal_bytes_refl,
}
use lite_speed_store.Engine.{
  Record, Table, StorageEngine, Reply, find, erase, get, history_count, back, push_capped,
  append_capped,
}
use lite_speed_store.Engine.Answers.{Changes, set-Changes, remove-Changes, new_record}
use lite_speed_store.Engine.Table.{
  history_of, find-alter_same, find-alter_other, find-erase_same, find-erase_other,
}
use lite_speed_store.Engine.Newest.{push_capped-newest, newest_nil, back-newest, length-newest}
use lite_speed_store.Engine.Spec.{
  Histories, Call, set_call, remove_call, promised, promised_all, newest, latest, retained, returns,
  perform, perform_all,
}

abbrev pub cut : ℕ → Option (List Record) → Option (List Record)
cut limit none = none
cut limit (some h) = some (newest limit h)

-- Each key has the newest records of its history.
abbrev pub Refines : StorageEngine → Histories → Type 0
Refines e s = (key : List ℕ) → find key e.table ≡ cut e.max_history (s key)

history_of-cut :
    (limit : ℕ) (o : Option (List Record)) → history_of (cut limit o) ≡ newest limit (history_of o)
unfolding history_of
history_of-cut limit none = sym (newest_nil limit)
history_of-cut limit (some h) = refl

-- One call: where it changes the memory, and where it does not.
same_test : (key k : List ℕ) → equal_bytes k key ≡ false → k ≢ key
same_test key k apart e =
    cc (sym apart ∙ ap (λ (x : List ℕ). equal_bytes x key) e ∙ equal_bytes_refl key)

pub set-promised :
    (limit : ℕ) (key : List ℕ) (r : Record) (t : Table) (s : Histories) (k : List ℕ)
    → ((j : List ℕ) → find j t ≡ cut limit (s j))
    → find k (append_capped limit key r t)
      ≡ cut limit (if equal_bytes k key then some (history_of (s key) ++ r ∷ []) else s k)
unfolding append_capped
set-promised limit key r t s k has = elim (Bool-cases (equal_bytes k key)) [
  | inl e ↦
      rw (e, equal_bytes→eq k key e)
        (find-alter_same key (push_capped limit r) t
          ∙ ap (λ (o : Option (List Record)). some (push_capped limit r (history_of o))) (has key)
          ∙ ap (λ (h : List Record). some (push_capped limit r h)) (history_of-cut limit (s key))
          ∙ ap some (push_capped-newest limit r (history_of (s key))))
  | inr apart ↦
      rw apart (find-alter_other key k (push_capped limit r) t (same_test key k apart) ∙ has k)
]

pub remove-promised :
    (limit : ℕ) (key : List ℕ) (t : Table) (s : Histories) (k : List ℕ)
    → ((j : List ℕ) → find j t ≡ cut limit (s j))
    → find k (erase key t) ≡ cut limit (if equal_bytes k key then none else s k)
remove-promised limit key t s k has = elim (Bool-cases (equal_bytes k key)) [
  | inl e ↦ rw (e, equal_bytes→eq k key e) (find-erase_same key t)
  | inr apart ↦ rw apart (find-erase_other key k t (same_test key k apart) ∙ has k)
]

-- What a call leaves, by whether it returned.
Changes-Refines {ℓ} :
    {A : Type ℓ} {e e' : StorageEngine} {reply : Reply A} {answer : A} {t : Table}
    (s s' : Histories)
    → Changes e e' reply answer t
    → Refines e s
    → ((k : List ℕ) → find k t ≡ cut e.max_history (s' k))
    → Refines e' (if returns reply then s' else s)
unfolding returns
Changes-Refines {e = e} {e' = e'} s s' c old new key = elim c.outcome [
  | inl (is, table) ↦ rw (is, table, c.limit) (new key)
  | inr (x, is, table) ↦ rw (is, table, c.limit) (old key)
]

pub perform-Refines :
    (c : Call) (e : StorageEngine) (s : Histories)
    → Refines e s
    → Refines (perform c e).1 (if (perform c e).0 then promised c s else s)
unfolding perform promised
perform-Refines (set_call key value duration now) e s has =
    Changes-Refines s (promised (set_call key value duration now) s)
      (set-Changes e key value duration now) has
      (λ k. set-promised e.max_history key (new_record value duration now) e.table s k has)
perform-Refines (remove_call key now) e s has =
    Changes-Refines s (promised (remove_call key now) s) (remove-Changes e key now) has
      (λ k. remove-promised e.max_history key e.table s k has)

promised_all-if :
    (b : Bool) (c : Call) (calls : List Call) (s : Histories)
    → promised_all calls (if b then promised c s else s)
      ≡ promised_all (if b then c ∷ calls else calls) s
unfolding promised_all
promised_all-if true c calls s = refl
promised_all-if false c calls s = refl

-- The engine refines histories without a limit: if each key has the newest records, as many as the
-- limit allows, of its history, so it has after any sequence of `set` and `remove`, whatever the
-- kernel answers to each, where the histories change by the calls that returned, in their order.
pub perform_all-Refines :
    (calls : List Call) (e : StorageEngine) (s : Histories)
    → Refines e s
    → Refines (perform_all calls e).1 (promised_all (perform_all calls e).0 s)
unfolding perform_all promised_all
perform_all-Refines [] e s has = has
perform_all-Refines (c ∷ calls) e s has =
    let (returned, e1) = perform c e in
    let (committed, e2) = perform_all calls e1 in
    subst (Refines e2) (promised_all-if returned c committed s) (
      perform_all-Refines calls e1 (if returned then promised c s else s)
        (perform-Refines c e s has))

get-cut :
    (limit : ℕ) (o : Option (List Record))
    → (elim (cut limit o) [
      | none ↦ none
      | some h ↦ elim (back h) [ none ↦ none | some r ↦ some r.value ]
    ])
      ≡ latest o
unfolding latest
get-cut limit none = refl
get-cut limit (some h) = rw (back-newest limit h)

count-cut :
    (limit : ℕ) (o : Option (List Record))
    → (elim (cut limit o) [ none ↦ 0 | some h ↦ length h ]) ≡ retained limit o
unfolding retained
count-cut limit none = refl
count-cut limit (some h) = length-newest limit h

-- On an engine whose keys have the newest records, as many as the limit allows, of their
-- histories, `get` answers the value of the last record of the key's history, and `historyCount`
-- the length of the history, cut to the limit if it is above zero.
pub queries-Refines :
    (e : StorageEngine) (s : Histories) (key : List ℕ)
    → Refines e s
    → (get e key ≡ latest (s key)) × (history_count e key ≡ retained e.max_history (s key))
unfolding get history_count
queries-Refines e s key has = (
  rw (get, has key) (get-cut e.max_history (s key)),
  rw (history_count, has key) (count-cut e.max_history (s key)),
)
