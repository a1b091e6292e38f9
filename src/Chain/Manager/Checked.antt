-- ===== src/Chain/Manager/Checked.antt =====
-- monkchain/chain_manager.go: what is known of the checkpoint.
use thelonious.Base.{
  ℕ, ◌%◌, ◌^◌, List, [], ◌∷◌, ◌≡◌, refl, sym, ap, ◌∙◌, inl, inr, true, false, Bool, Bool-cases,
  Option, none, some, Option-cases,
}
use thelonious.Trie.Slices.{compare_int_slice, compare_int_slice_iff}
use thelonious.Trie.Cache.{find}
use thelonious.Trie.Cache.Maps.{find-store}
use thelonious.Chain.Manager.{
  Block, Link, ChainManager, in_chain, working_link, get_block_working, get_block,
  get_block_canonical,
}
use thelonious.Chain.Manager.Adding.{write_block_info, add}
use thelonious.Chain.Manager.Checkpoints.{
  update_checkpoint, check_point, is_checkpoint, receive_check_point_block, load_checkpoint,
  stored_or,
}
use thelonious.Chain.Manager.Sound.{IsSound}

in_chain-hash :
    (links : ℕ → Link) (h : List ℕ) (c : List ℕ) (a : ℕ)
    → in_chain links h c ≡ some a
    → (links a).block.hash ≡ h
unfolding in_chain
in_chain-hash links h [] a e = let f : none ≡ some a = e in absurd (cc)
in_chain-hash links h (x ∷ c) a e = elim (Bool-cases (compare_int_slice (links x).block.hash h)) [
  | inl s ↦
      let f : some x ≡ some a = rw s at e in
      let g : x ≡ a = (cc) in
      ap (λ y. (links y).block.hash) (sym g) ∙ (compare_int_slice_iff (links x).block.hash h).0 s
  | inr s ↦ in_chain-hash links h c a (rw s at e)
]

working_link-hash :
    (h : List ℕ) (a : ℕ) (m : ChainManager)
    → IsSound m
    → working_link h m ≡ some a
    → (m.links a).block.hash ≡ h
unfolding working_link IsSound
working_link-hash h a m (s, (r, l)) e = elim (Option-cases (find h m.working_tree)) [
  | inr (x, f) ↦
      let g : some x ≡ some a = rw (f, working_link) at e in
      let q : x ≡ a = (cc) in (l h a (f ∙ ap (λ y. some y) q)).1
  | inl f ↦ elim (Option-cases m.working_chain) [
    | inl w ↦
        let q : none ≡ some a = rw (w, working_link) at (rw (f, working_link) at e) in absurd (cc)
    | inr (c, w) ↦ in_chain-hash m.links h c a (rw (w, working_link) at (rw (f, working_link) at e))
  ]
]

-- In a sound manager a block is found under no other hash than its own.
get_block-hash :
    (h : List ℕ) (b : Block) (m : ChainManager) → IsSound m → get_block h m ≡ some b → b.hash ≡ h
unfolding get_block get_block_canonical get_block_working IsSound
get_block-hash h b m s e = elim (Option-cases (find h m.blocks)) [
  | inr (x, f) ↦
      let g : some x ≡ some b = rw (f, get_block) at e in
      let q : x ≡ b = (cc) in canonical_hash s (f ∙ ap (λ y. some y) q)
  | inl f ↦ elim (Option-cases (working_link h m)) [
    | inl g ↦
        let q : none ≡ some b = rw (g, get_block_working) at (rw (f, get_block) at e) in absurd (cc)
    | inr (a, g) ↦
        let k : some (m.links a).block ≡ some b =
          rw (g, get_block_working) at (rw (f, get_block) at e) in
        let q : (m.links a).block ≡ b = (cc) in
        ap (λ y. y.hash) (sym q) ∙ working_link-hash h a m s g
  ]
]
  where
    canonical_hash : IsSound m → find h m.blocks ≡ some b → b.hash ≡ h
    canonical_hash s e = s.0.0.keyed h b e

-- Unless it is waited for, the block of the checkpoint is at hand, with its number.
unfoldable pub IsChecked : ChainManager → Type 0
IsChecked m =
    m.waiting_for_check_point ≡ false
    → (b : Block) × (m.latest_check_point_block ≡ some b)
      × (b.hash ≡ m.latest_check_point_hash)
      × (m.latest_check_point_number ≡ b.number % 2 ^ 64)

update_checkpoint-IsChecked :
    (h : List ℕ) (m : ChainManager)
    → ((b : Block) → get_block h m ≡ some b → b.hash ≡ h)
    → IsChecked (update_checkpoint h m)
unfolding update_checkpoint IsChecked
update_checkpoint-IsChecked h m s = elim (Option-cases (get_block h m)) [
  | inl e ↦ rw (e, update_checkpoint) (λ w. let q : true ≡ false = w in absurd (cc))
  | inr (b, e) ↦ rw (e, update_checkpoint) (λ w. (b, refl, s b e, refl))
]

add-found : (b : Block) (m : ChainManager) → get_block b.hash (add b m) ≡ some b
unfolding get_block get_block_canonical add write_block_info
add-found b m = rw (find-store b.hash b m.blocks, get_block) refl

add-found_hash :
    (b x : Block) (m : ChainManager) → get_block b.hash (add b m) ≡ some x → x.hash ≡ b.hash
add-found_hash b x m e =
    let f : some b ≡ some x = sym (add-found b m) ∙ e in
    let q : b ≡ x = (cc) in ap (λ y. y.hash) (sym q)

-- In a sound manager, CheckPoint, loadCheckpoint and ReceiveCheckPointBlock leave the checkpoint
-- either waited for or with its block at hand, under its hash and with its number.
pub checkpoints-IsChecked :
    (accepts : List ℕ → ChainManager → Bool) (h : Option (List ℕ)) (o : Option Block)
    (m : ChainManager)
    → IsSound m
    → IsChecked m
    → IsChecked (check_point accepts h m)
      × IsChecked (load_checkpoint m)
      × IsChecked (receive_check_point_block o m).1
unfolding check_point load_checkpoint receive_check_point_block
checkpoints-IsChecked accepts h o m s k = (proposed h, loaded, received o)
  where
    updated : (h : List ℕ) → IsChecked (update_checkpoint h m)
    updated h = update_checkpoint-IsChecked h m (λ b. get_block-hash h b m s)

    proposed : (h : Option (List ℕ)) → IsChecked (check_point accepts h m)
    proposed none = k
    proposed (some h) =
        elim (Bool-cases (compare_int_slice m.latest_check_point_hash m.genesis_block.hash)) [
          | inl e ↦ rw e (updated h)
          | inr e ↦ elim (Bool-cases (accepts h m)) [
            | inl f ↦ rw e (rw f (updated h))
            | inr f ↦ rw e (rw f k)
          ]
        ]

    loaded : IsChecked (load_checkpoint m)
    loaded = updated (stored_or m.genesis_block.hash m.check_point_key)

    received : (o : Option Block) → IsChecked (receive_check_point_block o m).1
    received none = k
    received (some b) = elim (Bool-cases (is_checkpoint b.hash m)) [
      | inl e ↦ rw e (update_checkpoint-IsChecked b.hash (add b m) (λ x. add-found_hash b x m))
      | inr e ↦ rw e k
    ]
