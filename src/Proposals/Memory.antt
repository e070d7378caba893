-- ===== src/Proposals/Memory.antt =====
-- A database and a codec that keep the laws of Proposals.Database, for the tests: a list of rows, of
-- which the first with an id counts, and a text form of every JSON object.
use mathlib.Core.Option
use mathlib.Core.HLevel.{hedberg}
use mathlib.Core.Option.{some-injective}
use mathlib.Core.List.{Mem, mem-cons, not-mem-nil}
use mathlib.Core.Logic.{◌∨₁◌, ∨₁_prop}
use mathlib.Core.Logic.Or
use saga_agents.Common.{
  String, ◌==◌, eq_iff, ◌≡◌, ◌↔◌, ◌∙◌, refl, sym, ap, arith, Bool, true, false, ◌&&◌, List, [], ◌∷◌,
  Option, none, some, one_if, if◌then◌else◌, Bool-cases, inl, inr,
}
use saga_agents.Proposals.Database.{Database, Row, set_columns, is_some, of_agent}

abbrev find : List Row → String → Option Row
find [] k = none
find (r ∷ d) k = if r.id == k then some r else find d k

abbrev insert : Row → List Row → Option (List Row)
insert r d = elim (find d r.id) [ none ↦ some (r ∷ d) | some old ↦ none ]

abbrev update : String → Option String → String → List Row → List Row
update status error k [] = []
update status error k (r ∷ d) =
    let rest = update status error k d in
    if r.id == k then set_columns status error r ∷ rest else r ∷ rest

abbrev passes : String → Option String → Row → Bool
passes status agent r = (r.status == status) && of_agent agent r

abbrev keep : String → Option String → Option Row → List Row → List Row
keep status agent none rows = rows
keep status agent (some r) rows = if passes status agent r then r ∷ rows else rows

abbrev select_in : String → Option String → List Row → List Row → List Row
select_in status agent d [] = []
select_in status agent d (r ∷ rows) =
    keep status agent (find d r.id) (select_in status agent d rows)

pub id-find : (d : List Row) (k : String) (r : Row) → find d k ≡ some r → r.id ≡ k
id-find [] k r h = cc
id-find (x ∷ d) k r h = elim (Bool-cases (x.id == k)) [
  | inl same ↦ let found : some x ≡ some r = rw same at h in cc (found, (eq_iff x.id k).0 same)
  | inr other ↦ id-find d k r (rw other at h)
]

pub find-insert :
    (d d' : List Row) (r : Row) (k : String) (o : Option Row)
    → (elim o [ none ↦ some (r ∷ d) | some old ↦ none ]) ≡ some d'
    → find d' k ≡ (if r.id == k then some r else find d k)
find-insert d d' r k none h = let same : r ∷ d ≡ d' = cc in ap (λ x. find x k) (sym same)
find-insert d d' r k (some old) h = cc

pub find-update :
    (d : List Row) (status : String) (error : Option String) (k j : String)
    → find (update status error k d) j
      ≡ (if k == j then Option.map (set_columns status error) (find d j) else find d j)
find-update [] status error k j = ground arith
find-update (x ∷ d) status error k j =
    ground (arith, find-update d status error k j, eq_iff x.id k, eq_iff x.id j, eq_iff k j)

Mem-if :
    (b : Bool) (x : Row) (rows : List Row) (r : Row)
    → Mem r (if b then x ∷ rows else rows)
    → ((x ≡ r) × (b ≡ true)) ∨₁ Mem r rows
Mem-if true x rows r m =
    Or.elim ∨₁_prop (mem-cons.0 m) (λ same. Or.inl (sym same, refl)) (λ later. Or.inr later)
Mem-if false x rows r m = Or.inr m

Mem-keep :
    (status : String) (agent : Option String) (o : Option Row) (rows : List Row) (r : Row)
    → Mem r (keep status agent o rows)
    → ((o ≡ some r) × (passes status agent r ≡ true)) ∨₁ Mem r rows
Mem-keep status agent none rows r m = Or.inr m
Mem-keep status agent (some x) rows r m =
    Or.elim ∨₁_prop (Mem-if (passes status agent x) x rows r m)
      (λ h. Or.inl (ap some h.0, ap (passes status agent) (sym h.0) ∙ h.1)) (λ later. Or.inr later)

keep_later :
    (status : String) (agent : Option String) (o : Option Row) (rows : List Row) (r : Row)
    → Mem r rows
    → Mem r (keep status agent o rows)
keep_later status agent none rows r m = m
keep_later status agent (some x) rows r m = elim (Bool-cases (passes status agent x)) [
  | inl fits ↦ rw fits (mem-cons.1 (Or.inr m))
  | inr fails ↦ rw fails m
]

keep_now :
    (status : String) (agent : Option String) (o : Option Row) (rows : List Row) (r : Row)
    → o ≡ some r
    → passes status agent r ≡ true
    → Mem r (keep status agent o rows)
keep_now status agent o rows r found fits = rw (found, fits) (mem-cons.1 (Or.inl refl))

String-discrete : Discrete String
String-discrete s t = elim (Bool-cases (s == t)) [
  | inl same ↦ Dec.yes ((eq_iff s t).0 same)
  | inr other ↦ Dec.no (λ h. ground (arith, eq_iff s t))
]

Row-discrete : Discrete Row
Row-discrete = hlevel (String-discrete)

abbrev Selected : List Row → String → Option String → Row → Type 0
Selected d status agent r = (find d r.id ≡ some r) × (passes status agent r ≡ true)

Selected-prop :
    (d : List Row) (status : String) (agent : Option String) (r : Row)
    → IsProp (Selected d status agent r)
Selected-prop d status agent r = hlevel (hedberg Row-discrete)

select_sound :
    (d rows : List Row) (status : String) (agent : Option String) (r : Row)
    → Mem r (select_in status agent d rows)
    → Selected d status agent r
select_sound d [] status agent r m = absurd (not-mem-nil m)
select_sound d (x ∷ rows) status agent r m =
    Or.elim (Selected-prop d status agent r)
      (Mem-keep status agent (find d x.id) (select_in status agent d rows) r m)
      (λ h. (ap (find d) (id-find d x.id r h.0) ∙ h.0, h.1))
      (λ later. select_sound d rows status agent r later)

select_complete :
    (d rows : List Row) (status : String) (agent : Option String) (r : Row)
    → find rows r.id ≡ some r
    → Selected d status agent r
    → Mem r (select_in status agent d rows)
select_complete d [] status agent r e h = cc
select_complete d (x ∷ rows) status agent r e h = elim (Bool-cases (x.id == r.id)) [
  | inl same ↦
      let here : find d x.id ≡ some r = ap (find d) ((eq_iff x.id r.id).0 same) ∙ h.0 in
      keep_now status agent (find d x.id) _ r here h.1
  | inr other ↦
      keep_later status agent (find d x.id) _ r
        (select_complete d rows status agent r (rw other at e) h)
]

pub select_iff :
    (d : List Row) (status : String) (agent : Option String) (r : Row)
    → Mem r (select_in status agent d d)
      ↔ ((find d r.id ≡ some r) × ((r.status == status) ≡ true) × (of_agent agent r ≡ true))
select_iff d status agent r = (
  λ m. let h = select_sound d d status agent r m in ground arith,
  λ h. select_complete d d status agent r h.0 (h.0, ground arith),
)

abbrev pub memory : Database
memory = record {
  Db = List Row;
  create = λ d. d;
  find = find;
  insert = insert;
  update_status = λ status error k d. (update status error k d, one_if (is_some (find d k)));
  select = λ status agent d. select_in status agent d d;
  find-create = λ d k. refl;
  id-find = id-find;
  insert_new = λ d r h. (r ∷ d, rw (h, insert));
  insert_taken = λ d r old h. rw (h, insert);
  find-insert = λ d d' r k h. find-insert d d' r k (find d r.id) h;
  find-update = find-update;
  rowcount = λ d status error k. refl;
  select_iff = select_iff;
}
