-- ===== src/Mod/Topological/Order.antt =====
-- mod/mod.go: the order that `TopologicalDeps` returns.
use pea_old.Prelude.{
  ℕ, zero, suc, ◌<◌, ◌≡◌, true, false, List, [], ◌∷◌, ◌++◌, Option, none, some, elem, In, AllIn,
  IsUnique, elem-concat, IsUnique-concat, arith, Bool-cases, Option-cases, some_cancel, In-head,
  In-tail, inl, inr, ◌⊎◌,
}
use mathlib.Core.Path.{subst}
use mathlib.Core.List.{append-nil, append_assoc}
use pea_old.Mod.Topological.{Walk, mark, each, add, topological_deps, start}

pub stuck_absurd : {w : Walk} → none ≡ some w → ⊥
stuck_absurd e = cc

last-In : (m : ℕ) (xs : List ℕ) → In m (xs ++ m ∷ [])
last-In m xs = ground (arith, elem-concat m m xs)

start-pending : (a : ℕ) → (elem a [] ≡ true) × (elem a [] ≡ false) → ⊥
start-pending a p = cc

module _ (deps : ℕ → List ℕ) where
  -- Behind the modules `before`, each module of the list stands behind all its dependencies.
  abbrev pub IsOrdered : List ℕ → List ℕ → Type 0
  IsOrdered before [] = Unit {0}
  IsOrdered before (m ∷ ms) = AllIn (deps m) before × IsOrdered (before ++ m ∷ []) ms

  IsOrdered-concat :
      (before ms : List ℕ) (m : ℕ)
      → IsOrdered before ms
      → AllIn (deps m) (before ++ ms)
      → IsOrdered before (ms ++ m ∷ [])
  IsOrdered-concat before [] m h k = (rw (append-nil before) at k, tt)
  IsOrdered-concat before (x ∷ ms) m (h, hs) k =
      (h, IsOrdered-concat (before ++ x ∷ []) ms m hs (rw (← append_assoc before (x ∷ []) ms) at k))

  -- The modules whose dependencies are being added: seen and not yet sorted.
  abbrev Pending : Walk → ℕ → Type 0
  Pending w a = (elem a w.seen ≡ true) × (elem a w.sorted ≡ false)

  -- What every state of the walk keeps.
  pub record IsSound (w : Walk) : Type 0 where
    pub ordered : IsOrdered [] w.sorted
    pub unique : IsUnique w.sorted
    pub sorted_seen : (a : ℕ) → In a w.sorted → In a w.seen

  -- From a state to a later one: the same modules are pending, and the sorted stay sorted.
  record Grows (w w' : Walk) : Type 0 where
    sound : IsSound w'
    pending : (a : ℕ) → Pending w' a → Pending w a
    still : (a : ℕ) → Pending w a → Pending w' a
    kept : (a : ℕ) → In a w.sorted → In a w'.sorted

  Grows-refl : (w : Walk) → IsSound w → Grows w w
  Grows-refl w s = record { sound = s; pending = λ a h. h; still = λ a h. h; kept = λ a h. h }

  Grows-trans : {u v w : Walk} → Grows u v → Grows v w → Grows u w
  Grows-trans g h = record {
    sound = h.sound;
    pending = λ a p. g.pending a (h.pending a p);
    still = λ a p. h.still a (g.still a p);
    kept = λ a p. h.kept a (g.kept a p);
  }

  mark-IsSound : (m : ℕ) (w : Walk) → IsSound w → IsSound (mark m w)
  unfolding elem
  mark-IsSound m w s = record {
    ordered = s.ordered;
    unique = s.unique;
    sorted_seen = λ a h. ground (arith, s.sorted_seen a h);
  }

  -- The module that is marked is pending, and the others pending are those of before.
  mark-pending : (m : ℕ) (w : Walk) (a : ℕ) → Pending (mark m w) a → (a ≡ m) ⊎ Pending w a
  unfolding elem
  mark-pending m w a h = ground arith

  mark-still : (m : ℕ) (w : Walk) (a : ℕ) → Pending w a → Pending (mark m w) a
  unfolding elem
  mark-still m w a h = ground arith

  mark_self : (m : ℕ) (w : Walk) → IsSound w → elem m w.seen ≡ false → Pending (mark m w) m
  unfolding elem
  mark_self m w s e = (ground arith, ground (arith, s.sorted_seen m))

  -- The module is appended once its dependencies are sorted.
  emit-Grows :
      (m : ℕ) (w w1 : Walk)
      → IsSound w
      → elem m w.seen ≡ false
      → Grows (mark m w) w1
      → AllIn (deps m) w1.sorted
      → Grows w (record w1 { sorted = w1.sorted ++ m ∷ [] })
  emit-Grows m w w1 s e g h =
      let self = g.still m (mark_self m w s e) in
      record {
        sound = record {
          ordered = IsOrdered-concat [] w1.sorted m g.sound.ordered h;
          unique = IsUnique-concat m w1.sorted g.sound.unique self.1;
          sorted_seen = λ a p. ground (arith, elem-concat a m w1.sorted, g.sound.sorted_seen a);
        };
        pending = λ a p. ground (arith, elem-concat a m w1.sorted, g.pending a, mark-pending m w a);
        still = λ a p. ground (arith, elem-concat a m w1.sorted, g.still a, mark-still m w a);
        kept = λ a p. ground (arith, elem-concat a m w1.sorted, g.kept a);
      }

  start-IsSound : IsSound start
  unfolding elem
  start-IsSound = record { ordered = tt; unique = tt; sorted_seen = λ a h. cc }

  module _ (rank : ℕ → ℕ) (acyclic : (m d : ℕ) → In d (deps m) → rank d < rank m) where
    abbrev Above : ℕ → Walk → Type 0
    Above m w = (a : ℕ) → Pending w a → rank m < rank a

    abbrev Rule : (ℕ → Walk → Option Walk) → Type 0
    Rule call =
        (m : ℕ) (w w' : Walk)
        → IsSound w
        → Above m w
        → call m w ≡ some w'
        → Grows w w' × In m w'.sorted

    seen-sorted : (m : ℕ) (w : Walk) → Above m w → elem m w.seen ≡ true → In m w.sorted
    seen-sorted m w ab old = elim (Bool-cases (elem m w.sorted)) [
      | inl sorted ↦ sorted
      | inr not_yet ↦ absurd (omega (arith, ab m (old, not_yet)))
    ]

    below_mark : (m : ℕ) (w : Walk) → Above m w → (d : ℕ) → In d (deps m) → Above d (mark m w)
    below_mark m w ab d h a p = elim (mark-pending m w a p) [
      | inl e ↦ rw e (acyclic m d h)
      | inr old ↦ omega (arith, acyclic m d h, ab a old)
    ]

    each-Grows :
        (call : ℕ → Walk → Option Walk)
        → Rule call
        → (ms : List ℕ) (w w' : Walk) → IsSound w
        → ((m : ℕ) → In m ms → Above m w)
        → each call ms w ≡ some w'
        → Grows w w' × AllIn ms w'.sorted
    unfolding each
    each-Grows call rule [] w w' s ab e = (subst (Grows w) (some_cancel e) (Grows-refl w s), tt)
    each-Grows call rule (m ∷ ms) w w' s ab e = elim (Option-cases (call m w)) [
      | inl stuck ↦ absurd (stuck_absurd (rw (stuck, each) at e))
      | inr (w1, e1) ↦
          let (g1, in1) = rule m w w1 s (ab m (In-head m ms)) e1 in
          let (g2, in2) =
            each-Grows call rule ms w1 w' g1.sound
              (λ x h a p. ab x (In-tail x m ms h) a (g1.pending a p)) (rw (e1, each) at e) in
          (Grows-trans g1 g2, (g2.kept m in1, in2))
    ]

    add-Grows : (fuel : ℕ) → Rule (add deps fuel)
    unfolding add
    add-Grows zero m w w' s ab e = cc
    add-Grows (suc fuel) m w w' s ab e = elim (Bool-cases (elem m w.seen)) [
      | inl old ↦
          let same : w ≡ w' = some_cancel (rw (old, add) at e) in
          subst (λ v. Grows w v × In m v.sorted) same (Grows-refl w s, seen-sorted m w ab old)
      | inr new ↦ elim (Option-cases (each (add deps fuel) (deps m) (mark m w))) [
        | inl stuck ↦ absurd (stuck_absurd (rw (new, stuck, add) at e))
        | inr (w1, e1) ↦
            let (g, h) =
              each-Grows (add deps fuel) (add-Grows fuel) (deps m) (mark m w) w1
                (mark-IsSound m w s) (below_mark m w ab) e1 in
            let same = some_cancel (rw (new, e1, add) at e) in
            subst (λ v. Grows w v × In m v.sorted) same
              (emit-Grows m w w1 s new g h, last-In m w1.sorted)
      ]
    ]

    -- Without a cycle the walk returns modules that are ordered, each of them once, with every root
    -- among them.
    pub topological :
        (fuel : ℕ) (roots : List ℕ) (w : Walk)
        → topological_deps deps fuel roots ≡ some w
        → IsSound w × AllIn roots w.sorted
    unfolding topological_deps
    topological fuel roots w e =
        let (g, h) =
          each-Grows (add deps fuel) (add-Grows fuel) roots start w start-IsSound
            (λ m h a p. absurd (start-pending a p)) e in
        (g.sound, h)
