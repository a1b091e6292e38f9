-- ===== src/Chain/Manager/Lengthens.antt =====
-- monkchain/chain_manager.go: the canonical chain behind a lengthening.
use thelonious.Base.{ℕ, List, [], ◌∷◌, ◌≡◌, refl, sym, ◌∙◌, some, All, ok}
use mathlib.Core.Path.{subst}
use thelonious.Trie.Cache.{find}
use thelonious.Trie.Cache.Maps.{find-store}
use thelonious.Chain.Manager.{Block, ChainManager, total_of}
use thelonious.Chain.Manager.Adding.{set_total_difficulty, write_block_info, add, lengthen}
use thelonious.Chain.Manager.Inserting.{last_of}

-- A link whose pointer to a total is not nil.
abbrev pub HasTotal : ChainManager → ℕ → Type 0
HasTotal m a = (t : ℕ) × ((m.links a).td ≡ some t)

-- The head is what was last stored, the total difficulty too, and nothing else is where they stand.
pub record IsHead (b : Block) (td : ℕ) (m : ChainManager) : Type 0 where
  pub block : m.current_block ≡ b
  pub hash : m.current_block_hash ≡ b.hash
  pub found : find b.hash m.blocks ≡ some b
  pub last : m.last_block ≡ some b
  pub total : m.td ≡ td
  pub known : m.known_td ≡ td

add-IsHead :
    (b : Block) (td : ℕ) (m : ChainManager) → IsHead b td (add b (set_total_difficulty td m))
unfolding add write_block_info set_total_difficulty
add-IsHead b td m = record {
  block = refl;
  hash = refl;
  found = find-store b.hash b m.blocks;
  last = refl;
  total = refl;
  known = refl;
}

HasTotal-total_of :
    (a t : ℕ) (m : ChainManager) → (m.links a).td ≡ some t → total_of a m ≡ some (m.totals t)
unfolding total_of
HasTotal-total_of a t m e = rw (e, total_of) refl

-- Adding a block leaves the links and their totals alone.
total_of-add :
    (x : ℕ) (b : Block) (td : ℕ) (m : ChainManager)
    → total_of x (add b (set_total_difficulty td m)) ≡ total_of x m
unfolding total_of add write_block_info set_total_difficulty
total_of-add x b td m = refl

links-add :
    (b : Block) (td : ℕ) (m : ChainManager) → (add b (set_total_difficulty td m)).links ≡ m.links
unfolding add write_block_info set_total_difficulty
links-add b td m = refl

-- The chain that is added, and the total of its last link.
pub lengthen-IsHead :
    (a : ℕ) (c : List ℕ) (td : ℕ) (m : ChainManager)
    → All (HasTotal m) (a ∷ c)
    → total_of (last_of a c) m ≡ some td
    → (m' : ChainManager) × (lengthen (a ∷ c) m ≡ ok m')
      × IsHead (m.links (last_of a c)).block td m'
unfolding lengthen
lengthen-IsHead a [] td m h e =
    let e' : total_of a m ≡ some td = e in
    (_, rw (e', lengthen) refl, add-IsHead (m.links a).block td m)
lengthen-IsHead a (b ∷ c) td m ((t, f), hs) e =
    let m1 = add (m.links a).block (set_total_difficulty (m.totals t) m) in
    let same : m1.links ≡ m.links = links-add (m.links a).block (m.totals t) m in
    let (m', g, r) =
      lengthen-IsHead b c td m1
        (subst (λ l. All (λ x. (u : ℕ) × ((l x).td ≡ some u)) (b ∷ c)) (sym same) hs)
        (total_of-add (last_of b c) (m.links a).block (m.totals t) m ∙ e) in
    (
      m',
      rw (HasTotal-total_of a t m f, lengthen) g,
      subst (λ l. IsHead (l (last_of b c)).block td m') same r,
    )
