-- ===== src/Basic/Sub/Resolve.antt =====
-- basic/sub.go: `valMap.get`.
use pea_old.Prelude.{
  ℕ, zero, suc, ◌<◌, ◌≤◌, none, some, ◌==◌, if◌then◌else◌, ◌≡◌, refl, sym, ap, ◌∙◌, arith,
  Bool-cases, Option-cases, inl, inr, some_cancel,
}
use pea_old.Basic.Ir.{update}
use pea_old.Basic.Sub.{ValMap, put, get}

none-some : {u : ℕ} → none ≡ some u → ⊥
none-some e = cc

module _ (num : ℕ → ℕ) where
  -- The chain of slots from a value to the value that it stands for.
  pub data Resolves (m : ValMap) : ℕ → ℕ → Type 0 where
    done : {v : ℕ} → m.slots (num v) ≡ none → Resolves m v v
    follow : {v u w : ℕ} → m.slots (num v) ≡ some u → Resolves m u w → Resolves m v w

  Resolves-end : {m : ValMap} {v w : ℕ} → Resolves m v w → m.slots (num w) ≡ none
  Resolves-end (done e) = e
  Resolves-end (follow e r) = Resolves-end r

  Resolves-unique : {m : ValMap} {v w x : ℕ} → Resolves m v w → Resolves m v x → w ≡ x
  Resolves-unique (done e) (done f) = refl
  Resolves-unique (done e) (follow f r) = cc
  Resolves-unique (follow e q) (done f) = cc
  Resolves-unique {m} (follow {v} {u} {w} e q) (follow {u = u'} {w = x} f r) =
      let same : u' ≡ u = some_cancel (sym f ∙ e) in Resolves-unique q (rw same at r)

  module _ (rank final : ℕ → ℕ) where
    -- Every value has a place in the map, every slot leads to a lower rank, so there is no cycle,
    -- and `final v` is what `v` stands for.
    pub record IsMap (m : ValMap) : Type 0 where
      pub in_range : (v : ℕ) → num v < m.size
      pub lower : (v u : ℕ) → m.slots (num v) ≡ some u → rank u < rank v
      pub resolves : (v : ℕ) → Resolves m v (final v)

    pub final-le : (m : ValMap) → IsMap m → (v : ℕ) → rank (final v) ≤ rank v
    final-le m ok v = go (ok.resolves v)
      where
        go : {x w : ℕ} → Resolves m x w → rank w ≤ rank x
        go (done e) = omega arith
        go (follow {v = x} {u} {w} e r) = omega (arith, go r, ok.lower x u e)

    -- What a value stands for stands for itself.
    pub final_idem : (m : ValMap) → IsMap m → (v : ℕ) → final (final v) ≡ final v
    final_idem m ok v =
        Resolves-unique (ok.resolves (final v)) (done (Resolves-end (ok.resolves v)))

    pub final-eq : (m : ValMap) → IsMap m → (v u : ℕ) → m.slots (num v) ≡ some u → final v ≡ final u
    final-eq m ok v u e = Resolves-unique (ok.resolves v) (follow e (ok.resolves u))

    put-slot :
        (m : ValMap) (i j v : ℕ) → (put i v m).slots j ≡ (if j == i then some v else m.slots j)
    unfolding put update
    put-slot m i j v = refl

    -- The slot of `v` may hold the end of the chain instead of its next value.
    put-IsMap :
        (m : ValMap) (v u : ℕ)
        → IsMap m
        → m.slots (num v) ≡ some u
        → IsMap (put (num v) (final v) m)
    put-IsMap m v u ok e = record {
      in_range = unfold put in ok.in_range;
      lower = λ x y h. lower_put x y h;
      resolves = λ x. chain (ok.resolves x);
    }
      where
        same_slot : (x : ℕ) → num x ≡ num v → m.slots (num x) ≡ some u
        same_slot x h = rw h e

        lower_put : (x y : ℕ) → (put (num v) (final v) m).slots (num x) ≡ some y → rank y < rank x
        lower_put x y h = elim (Bool-cases (num x == num v)) [
          | inl hit ↦
              let q : num x ≡ num v = ground arith in
              let y_eq : final v ≡ y = ground (arith, put-slot m (num v) (num x) (final v)) in
              rw (← y_eq) (
                omega (
                  arith,
                  ok.lower x u (same_slot x q),
                  final-le m ok u,
                  ap rank (final-eq m ok v u e),
                ))
          | inr miss ↦ ok.lower x y (ground (arith, put-slot m (num v) (num x) (final v)))
        ]

        end_free : (w : ℕ) → m.slots (num w) ≡ none → (put (num v) (final v) m).slots (num w) ≡ none
        end_free w h = elim (Bool-cases (num w == num v)) [
          | inl hit ↦
              let q : num w ≡ num v = ground arith in absurd (none-some (sym h ∙ same_slot w q))
          | inr miss ↦ ground (arith, put-slot m (num v) (num w) (final v))
        ]

        chain : {x w : ℕ} → Resolves m x w → Resolves (put (num v) (final v) m) x w
        chain (done {v = x} h) = done (end_free x h)
        chain (follow {v = x} {u = y} {w} h r) = elim (Bool-cases (num x == num v)) [
          | inl hit ↦
              let q : num x ≡ num v = ground arith in
              let w_eq : final v ≡ w =
                final-eq m ok v u e
                ∙ Resolves-unique (ok.resolves u) (rw (some_cancel (sym h ∙ same_slot x q)) at r) in
              follow (ground (arith, put-slot m (num v) (num x) (final v)))
                (done (end_free w (Resolves-end r)))
          | inr miss ↦ follow (ground (arith, put-slot m (num v) (num x) (final v))) (chain r)
        ]

    get_empty :
        (fuel v : ℕ) (m : ValMap)
        → IsMap m
        → m.slots (num v) ≡ none
        → get (suc fuel) num v m ≡ some (record { val = v; map = m })
    unfolding get
    get_empty fuel v m ok e = ground (arith, ok.in_range v)

    get_filled :
        (fuel v u : ℕ) (m m1 : ValMap)
        → IsMap m
        → m.slots (num v) ≡ some u
        → get fuel num u m ≡ some (record { val = final v; map = m1 })
        → get (suc fuel) num v m ≡ some (record { val = final v; map = put (num v) (final v) m1 })
    unfolding get
    get_filled fuel v u m m1 ok e h = ground (arith, ok.in_range v)

    -- In a map with no cycle, where the number of every value is within the size of the map, and with
    -- fuel above the rank of `v`: `get` returns what `v` stands for, and the map that it leaves gives
    -- the same answers for every value.
    pub get_lem :
        (fuel v : ℕ) (m : ValMap)
        → IsMap m
        → rank v < fuel
        → (m' : ValMap) × (get fuel num v m ≡ some (record { val = final v; map = m' })) × IsMap m'
    get_lem zero v m ok h = absurd (omega arith)
    get_lem (suc fuel) v m ok h = elim (Option-cases (m.slots (num v))) [
      | inl empty ↦
          let itself : final v ≡ v = Resolves-unique (ok.resolves v) (done empty) in
          (m, rw itself (get_empty fuel v m ok empty), ok)
      | inr (u, e) ↦
          let (m1, e1, ok1) = get_lem fuel u m ok (omega (arith, ok.lower v u e)) in
          let same = final-eq m ok v u e in
          elim (Option-cases (m1.slots (num v))) [
            | inl gone ↦
                let itself : final v ≡ v = Resolves-unique (ok1.resolves v) (done gone) in
                absurd
                  (omega (arith, ok.lower v u e, final-le m ok u, ap rank itself, ap rank same))
            | inr (u1, e2) ↦ (
              put (num v) (final v) m1,
              get_filled fuel v u m m1 ok e (rw same e1),
              put-IsMap m1 v u1 ok1 e2,
            )
          ]
    ]
