-- ===== src/Basic/Ir.antt =====
-- basic/basic.go and basic/inline.go: statements, values, blocks and functions. Objects that the Go
-- code shares by pointers are numbers; the heap says what they hold.
pub mod Users
use pea_old.Prelude.{
  ℕ, Bool, true, false, List, [], ◌∷◌, ◌++◌, Option, none, some, ◌==◌, if◌then◌else◌, elem,
}
use pea_old.Prelude.Int.{ℤ}

-- The kinds of statement, with what each refers to: values, blocks and functions by number.
pub data Instr : Type 0 where
  comment : Instr
  store : ℕ → ℕ → Instr
  copy : ℕ → ℕ → Instr
  make_array : ℕ → List ℕ → Instr
  new_array : ℕ → ℕ → Instr
  make_slice : ℕ → ℕ → ℕ → ℕ → Instr
  make_string : ℕ → ℕ → Instr
  new_string : ℕ → ℕ → Instr
  make_and : ℕ → List (Option ℕ) → Option ℕ → Instr
  make_or : ℕ → ℕ → Option ℕ → Instr
  make_virt : ℕ → Option ℕ → List ℕ → Instr
  call : ℕ → List ℕ → Instr
  virt_call : ℕ → ℤ → List ℕ → Instr
  ret : Bool → Instr
  panic : ℕ → Instr
  jmp : ℕ → Instr
  switch : ℕ → List ℕ → Instr
  int_lit : ℕ → Instr
  float_lit : ℕ → Instr
  op : ℕ → List ℕ → Instr
  load : ℕ → Instr
  alloc : Bool → Option ℕ → Instr
  arg : ℕ → Instr
  global : ℕ → Instr
  index : ℕ → ℕ → Instr
  field : ℕ → ℕ → Instr

-- A statement object: `del`, and of a value its number, type and users.
pub record Node : Type 0 where
  pub del : Bool
  pub instr : Instr
  pub num : ℕ
  pub typ : ℕ
  pub users : List ℕ

pub record Block : Type 0 where
  pub n : ℕ
  pub stmts : List ℕ
  pub ins : List ℕ

pub record Heap : Type 0 where
  pub nodes : ℕ → Node
  pub blocks : ℕ → Block

-- The function that is `g` at `k` and `f` elsewhere.
unfoldable pub update {ℓ} : {A : Type ℓ} → (ℕ → A) → ℕ → A → ℕ → A
update f k a j = if j == k then a else f j

unfoldable pub set_node : Heap → ℕ → Node → Heap
unfolding update
set_node h v x = record h { nodes = update h.nodes v x }

unfoldable pub set_block : Heap → ℕ → Block → Heap
unfolding update
set_block h b x = record h { blocks = update h.blocks b x }

-- The values of the fields that are there.
unfoldable pub present : List (Option ℕ) → List ℕ
present [] = []
present (none ∷ fs) = present fs
present (some f ∷ fs) = f ∷ present fs

abbrev pub optional : Option ℕ → List ℕ
optional none = []
optional (some v) = v ∷ []

-- `Uses`
unfoldable pub uses : Instr → List ℕ
unfolding present
uses comment = []
uses (store dst val) = dst ∷ val ∷ []
uses (copy dst src) = dst ∷ src ∷ []
uses (make_array dst args) = args ++ dst ∷ []
uses (new_array dst size) = dst ∷ size ∷ []
uses (make_slice dst ary from to) = ary ∷ from ∷ to ∷ dst ∷ []
uses (make_string dst str) = dst ∷ []
uses (new_string dst bytes) = dst ∷ bytes ∷ []
uses (make_and dst fields block_fun) = dst ∷ present fields
uses (make_or dst cas val) = dst ∷ optional val
uses (make_virt dst obj virts) = dst ∷ optional obj
uses (call fun args) = args
uses (virt_call self i args) = args
uses (ret far) = []
uses (panic v) = v ∷ []
uses (jmp dst) = []
uses (switch v dsts) = v ∷ []
uses (int_lit v) = []
uses (float_lit v) = []
uses (op code args) = args
uses (load src) = src ∷ []
uses (alloc stack var) = []
uses (arg parm) = []
uses (global val) = []
uses (index ary i) = ary ∷ i ∷ []
uses (field obj i) = obj ∷ []

-- Whether the statement is a `Term`.
unfoldable pub is_term : Instr → Bool
is_term (ret far) = true
is_term (panic v) = true
is_term (jmp dst) = true
is_term (switch v dsts) = true
is_term _ = false

-- Whether the statement is a `Val`.
unfoldable pub is_val : Instr → Bool
is_val (int_lit v) = true
is_val (float_lit v) = true
is_val (op code args) = true
is_val (load src) = true
is_val (alloc stack var) = true
is_val (arg parm) = true
is_val (global val) = true
is_val (index ary i) = true
is_val (field obj i) = true
is_val _ = false

-- `Out` of a terminal statement
unfoldable pub term_out : Instr → List ℕ
term_out (jmp dst) = dst ∷ []
term_out (switch v dsts) = dsts
term_out _ = []

-- `storesTo`
unfoldable pub stores_to : Instr → ℕ → Bool
stores_to (store dst val) v = dst == v
stores_to (copy dst src) v = dst == v
stores_to (make_array dst args) v = dst == v
stores_to (new_array dst size) v = dst == v
stores_to (make_slice dst ary from to) v = dst == v
stores_to (make_string dst str) v = dst == v
stores_to (new_string dst bytes) v = dst == v
stores_to (make_and dst fields block_fun) v = dst == v
stores_to (make_or dst cas val) v = dst == v
stores_to (make_virt dst obj virts) v = dst == v
stores_to _ v = false

-- `addUser` and `addIn`: at the end, unless it is there.
unfoldable pub add_once : ℕ → List ℕ → List ℕ
add_once s xs = if elem s xs then xs else xs ++ s ∷ []

-- `rmUser` and `rmIn`: all occurrences.
unfoldable pub rm_all : ℕ → List ℕ → List ℕ
rm_all s [] = []
rm_all s (x ∷ xs) = if x == s then rm_all s xs else x ∷ rm_all s xs

unfoldable pub add_user : ℕ → ℕ → Heap → Heap
unfolding set_node
add_user v s h = let x = h.nodes v in set_node h v (record x { users = add_once s x.users })

unfoldable pub rm_user : ℕ → ℕ → Heap → Heap
unfolding set_node
rm_user v s h = let x = h.nodes v in set_node h v (record x { users = rm_all s x.users })

unfoldable pub add_in : ℕ → ℕ → Heap → Heap
unfolding set_block
add_in o b h = let x = h.blocks o in set_block h o (record x { ins = add_once b x.ins })

unfoldable pub rm_in : ℕ → ℕ → Heap → Heap
unfolding set_block
rm_in o b h = let x = h.blocks o in set_block h o (record x { ins = rm_all b x.ins })
