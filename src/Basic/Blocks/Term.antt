-- ===== src/Basic/Blocks/Term.antt =====
-- basic/sub.go: `subBBlk` of one terminal statement.
use pea_old.Prelude.{ℕ, ◌<◌, true, List, [], ◌∷◌, map, some, ◌≡◌, refl, arith}
use pea_old.Basic.Ir.{Instr, jmp, switch, ret, panic, term_out, is_term}
use pea_old.Basic.Sub.{ValMap}
use pea_old.Basic.Sub.Resolve.{IsMap, get_lem}
use pea_old.Basic.Blocks.{get_all, sub_term}

-- The statement with `f` on the blocks that it goes to.
unfoldable pub map_term : (ℕ → ℕ) → Instr → Instr
map_term f (jmp dst) = jmp (f dst)
map_term f (switch v dsts) = switch v (map f dsts)
map_term f other = other

pub term_out-map_term : (f : ℕ → ℕ) (i : Instr) → term_out (map_term f i) ≡ map f (term_out i)
unfolding term_out map_term
term_out-map_term f (jmp dst) = refl
term_out-map_term f (switch v dsts) = refl
term_out-map_term f other = refl

pub is_term-map_term : (f : ℕ → ℕ) (i : Instr) → is_term (map_term f i) ≡ is_term i
unfolding is_term map_term
is_term-map_term f (jmp dst) = refl
is_term-map_term f (switch v dsts) = refl
is_term-map_term f other = refl

module _ (num rank final : ℕ → ℕ) (fuel : ℕ) (enough : (v : ℕ) → rank v < fuel) where
  pub get_all_lem :
      (ds : List ℕ) (m : ValMap)
      → IsMap num rank final m
      → (m' : ValMap) × (get_all fuel num ds m ≡ some (map final ds, m')) × IsMap num rank final m'
  unfolding get_all
  get_all_lem [] m ok = (m, refl, ok)
  get_all_lem (d ∷ ds) m ok =
      let (m1, e1, ok1) = get_lem num rank final fuel d m ok (enough d) in
      let (m2, e2, ok2) = get_all_lem ds m1 ok1 in (m2, ground arith, ok2)

  pub sub_term_lem :
      (i : Instr) (m : ValMap)
      → IsMap num rank final m
      → is_term i ≡ true
      → (m' : ValMap) × (sub_term fuel num i m ≡ some (map_term final i, m'))
        × IsMap num rank final m'
  unfolding sub_term map_term is_term
  sub_term_lem (ret far) m ok t = (m, refl, ok)
  sub_term_lem (panic v) m ok t = (m, refl, ok)
  sub_term_lem (jmp dst) m ok t =
      let (m1, e1, ok1) = get_lem num rank final fuel dst m ok (enough dst) in (m1, rw e1, ok1)
  sub_term_lem (switch v dsts) m ok t =
      let (m1, e1, ok1) = get_all_lem dsts m ok in (m1, rw e1, ok1)
  sub_term_lem other m ok t = cc
