-- ===== src/Chain/Manager/News.antt =====
-- monkchain/chain_manager.go: the new blocks of a chain that is tested, and their totals.
use thelonious.Base.{ℕ, ◌+◌, List, [], ◌∷◌, ◌≡◌, refl, sym, ap, ◌∙◌, Option, none, some, ok, arith}
use thelonious.Trie.Cache.{find}
use thelonious.Chain.Manager.{
  Block, Link, ChainManager, total_of, in_chain, working_link, get_block, get_block_canonical,
  get_block_working, block_info, link_info, calculate_block_td, calc_total_diff,
}
use thelonious.Chain.Manager.Testing.{Processor, set_total}
use thelonious.Chain.Manager.Totals.{total_of-set_total}
use thelonious.Chain.Manager.Taken.{block_at, block_at-set_total}

-- The processor's answer is what CalcTotalDiff calculates, as that of the block manager.
abbrev pub IsCalculating : Processor → Type 0
IsCalculating process =
    (m : ChainManager) (b p : Block) (o : Option ℕ)
    → process m b p ≡ some o
    → calc_total_diff b m ≡ ok o

in_chain-same :
    (l l' : ℕ → Link) (h : List ℕ) (c : List ℕ)
    → ((x : ℕ) → (l' x).block ≡ (l x).block)
    → in_chain l' h c ≡ in_chain l h c
unfolding in_chain
in_chain-same l l' h [] k = refl
in_chain-same l l' h (x ∷ c) k = rw (k x, in_chain-same l l' h c k) refl

-- The link is found under the hash of its block, and its block neither in the database nor in the tree.
pub record IsNew (whole : List ℕ) (m : ChainManager) (a : ℕ) : Type 0 where
  pub unstored : find (block_at m a).hash m.blocks ≡ none
  pub uninformed : find (block_at m a).hash m.infos ≡ none
  pub unlinked : find (block_at m a).hash m.working_tree ≡ none
  pub own : in_chain m.links (block_at m a).hash whole ≡ some a

-- The total of a link that was tested.
pub record IsTested (whole : List ℕ) (a t : ℕ) (m : ChainManager) : Type 0 where
  pub working : m.working_chain ≡ some whole
  pub total : total_of a m ≡ some t
  pub new : IsNew whole m a

tested_link :
    (whole : List ℕ) (a t : ℕ) (m : ChainManager)
    → IsTested whole a t m
    → working_link (block_at m a).hash m ≡ some a
unfolding working_link
tested_link whole a t m i =
    rw (i.new.unlinked, working_link) (rw (i.working, working_link) i.new.own)

pub tested_block :
    (whole : List ℕ) (a t : ℕ) (m : ChainManager)
    → IsTested whole a t m
    → get_block (block_at m a).hash m ≡ some (block_at m a)
unfolding get_block get_block_canonical get_block_working
tested_block whole a t m i =
    rw (i.new.unstored, get_block) (rw (tested_link whole a t m i, get_block_working) refl)

pub tested_total :
    (whole : List ℕ) (a t : ℕ) (m : ChainManager)
    → IsTested whole a t m
    → (block_info (block_at m a) m).td ≡ some t
unfolding block_info link_info
tested_total whole a t m i =
    rw (i.new.uninformed, block_info) (rw (tested_link whole a t m i, block_info) i.total)

calculated :
    (b p : Block) (t : ℕ) (m : ChainManager)
    → get_block b.prev_hash m ≡ some p
    → (block_info p m).td ≡ some t
    → calc_total_diff b m ≡ ok (some (t + calculate_block_td b))
unfolding calc_total_diff calculate_block_td
calculated b p t m e f =
    rw (e, calc_total_diff) (rw (f, calc_total_diff) (ap (λ n. ok (some n)) (omega arith)))

-- A processor's answer for a block whose parent has a total.
pub answer :
    (process : Processor) (b p : Block) (t : ℕ) (u : Option ℕ) (m : ChainManager)
    → IsCalculating process
    → get_block b.prev_hash m ≡ some p
    → (block_info p m).td ≡ some t
    → process m b p ≡ some u
    → u ≡ some (t + calculate_block_td b)
answer process b p t u m k e f g =
    let h : ok u ≡ ok (some (t + calculate_block_td b)) =
      sym (k m b p u g) ∙ calculated b p t m e f in
    cc

pub IsNew-set_total :
    (whole : List ℕ) (x a t : ℕ) (m : ChainManager)
    → IsNew whole m x
    → IsNew whole (set_total a t m) x
unfolding set_total
IsNew-set_total whole x a t m i =
    let same = block_at-set_total x a t m in
    record {
      unstored = ap (λ b. find b.hash m.blocks) same ∙ i.unstored;
      uninformed = ap (λ b. find b.hash m.infos) same ∙ i.uninformed;
      unlinked = ap (λ b. find b.hash m.working_tree) same ∙ i.unlinked;
      own =
          in_chain-same m.links (set_total a t m).links _ whole (λ y. block_at-set_total y a t m)
          ∙ ap (λ b. in_chain m.links b.hash whole) same
          ∙ i.own;
    }

pub IsTested-set_total :
    (whole : List ℕ) (a t : ℕ) (m : ChainManager)
    → m.working_chain ≡ some whole
    → IsNew whole m a
    → IsTested whole a t (set_total a t m)
unfolding set_total
IsTested-set_total whole a t m w n = record {
  working = w;
  total = total_of-set_total a t m;
  new = IsNew-set_total whole a a t m n;
}

pub IsNew-working :
    (whole : List ℕ) (x : ℕ) (w : Option (List ℕ)) (m : ChainManager)
    → IsNew whole m x
    → IsNew whole (record m { working_chain = w }) x
IsNew-working whole x w m i = record {
  unstored = i.unstored;
  uninformed = i.uninformed;
  unlinked = i.unlinked;
  own = i.own;
}
