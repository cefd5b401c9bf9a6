-- ===== src/EasyFs/BlockCache/Access.antt =====
-- Reads, writes and the write-back of all blocks, as the one disk sees them.
use r_core_tutorial_code.Base.{
  ℕ, ◌+◌, ◌≡◌, ◌≢◌, ◌≤◌, refl, ap, sym, ◌∙◌, some, length, ◌==◌, Bool-cases, inl, inr, ==→eq, ==→ne,
  ◌⊎◌, update, update_at, update_ne, ok, Result, le→leb, ◌>>◌, fun_ext,
}
use r_core_tutorial_code.EasyFs.Block.{Block, block_sz}
use r_core_tutorial_code.EasyFs.BlockCache.{
  Entry, find_entry, BlockDevice, content, Manager, view, change, drop_clone, block_cache_size,
  release, write_mut, read, modify_block,
}
use r_core_tutorial_code.EasyFs.BlockCache.Queue.{
  All, All-change, length-change, find_entry-change_self, find_entry-change_ne, Distinct-change,
}
use r_core_tutorial_code.EasyFs.BlockCache.Refinement.{
  IsCoherent, Agrees, SameView, get_block_cache_lem,
}

module _ (dev : BlockDevice) where
  open dev use {Dev, read_block, write_block, read-write_self, read-write_ne}

  -- Some cached block is not in use, or the queue is not full.
  abbrev pub HasRoom : Manager dev → Type 0
  HasRoom m = (length m.queue ≢ block_cache_size) ⊎ (¬ (All (λ e. e.strong_count ≢ 1) m.queue))

  HasRoom-full :
      (m : Manager dev)
      → HasRoom m
      → length m.queue ≡ block_cache_size
      → ¬ (All (λ e. e.strong_count ≢ 1) m.queue)
  HasRoom-full m (inl ne) full = absurd (ne full)
  HasRoom-full m (inr free) full = free

  found_view :
      (m : Manager dev) (a : ℕ) (e : Entry)
      → find_entry a m.queue ≡ some e
      → view dev m a ≡ e.block.cache
  unfolding view content
  found_view m a e found = rw found

  -- The drop of a reference.
  module _ (a : ℕ) (m : Manager dev) (e : Entry) (found : find_entry a m.queue ≡ some e) where
    release-IsCoherent : IsCoherent dev m → IsCoherent dev (release dev a m)
    unfolding release
    release-IsCoherent h = record {
      distinct = Distinct-change a drop_clone (λ _. refl) m.queue h.distinct;
      agrees = All-change (Agrees dev m.device) a drop_clone (λ _ k. k) m.queue h.agrees;
      bounded = rw length-change h.bounded;
    }

    release-SameView : SameView dev m (release dev a m)
    unfolding release view content
    release-SameView b = elim (Bool-cases (b == a)) [
      | inl x ↦
          let ba : b ≡ a = ==→eq _ _ x in
          rw (ba, find_entry-change_self a drop_clone (λ _. refl) m.queue e found, found)
      | inr x ↦ rw (find_entry-change_ne a drop_clone (λ _. refl) b m.queue (==→ne _ _ x))
    ]

    -- A write through the reference.
    module _ (f : Block → Block) where
      written : Manager dev
      written = record m { queue = change a (write_mut dev f) m.queue }

      write_id : (x : Entry) → (write_mut dev f x).id ≡ x.id
      unfolding write_mut
      write_id x = refl

      written-IsCoherent : IsCoherent dev m → IsCoherent dev written
      unfolding written write_mut
      written-IsCoherent h = record {
        distinct = Distinct-change a (write_mut dev f) (λ _. refl) m.queue h.distinct;
        agrees =
            All-change (Agrees dev m.device) a (write_mut dev f) (λ x (p, q). (p, λ c. absurd (cc)))
              m.queue h.agrees;
        bounded = rw length-change h.bounded;
      }

      written-view : (b : ℕ) → view dev written b ≡ update (view dev m) a (f (view dev m a)) b
      unfolding written view content write_mut
      written-view b = elim (Bool-cases (b == a)) [
        | inl x ↦
            let ba : b ≡ a = ==→eq _ _ x in
            rw (
              update_at _ a _ b ba,
              ba,
              find_entry-change_self a (write_mut dev f) (λ _. refl) m.queue e found,
              found,
            )
        | inr x ↦ rw (
          update_ne _ a _ b (==→ne _ _ x),
          find_entry-change_ne a (write_mut dev f) (λ _. refl) b m.queue (==→ne _ _ x),
        )
      ]

      written-IsCached : (x : Entry) × (find_entry a written.queue ≡ some x)
      unfolding written
      written-IsCached =
          (write_mut dev f e, find_entry-change_self a (write_mut dev f) write_id m.queue e found)

  -- On a coherent cache that is not full or has a block that is not in use, a write that fits in
  -- the block succeeds: the cache stays coherent, and the disk that is seen changes in that block
  -- alone, by that write.
  pub modify_block_lem :
      (a offset size : ℕ) (f : Block → Block) (m : Manager dev)
      → IsCoherent dev m
      → offset + size ≤ block_sz
      → HasRoom m
      → (m' : Manager dev) × (modify_block dev a offset size f m ≡ ok (tt, m'))
        × IsCoherent dev m'
        × ((b : ℕ) → view dev m' b ≡ update (view dev m) a (f (view dev m a)) b)
  unfolding modify_block
  modify_block_lem a offset size f m h fits room = elim (get_block_cache_lem dev a m h) [
    | inr (_, _, full, used) ↦ absurd (HasRoom-full m room full used)
    | inl (m1, res, h1, same, (e, found)) ↦
        let (x, there) = written-IsCached a m1 e found f in
        let m2 = written a m1 e found f in
        (
          release dev a m2,
          unfold written in rw (res, ◌>>◌, le→leb (offset + size) block_sz fits),
          release-IsCoherent a m2 x there (written-IsCoherent a m1 e found f h1),
          λ b.
              release-SameView a m2 x there b
              ∙ written-view a m1 e found f b
              ∙ ap (λ (v : ℕ → Block). update v a (f (v a)) b) (fun_ext same),
        )
  ]

  -- On a coherent cache that is not full or has a block that is not in use, a read that fits in
  -- the block gives what the seen disk holds; the cache stays coherent, and nothing that is seen
  -- changes.
  pub read_lem :
      {V : Type 0} (a offset size : ℕ) (f : Block → V) (m : Manager dev)
      → IsCoherent dev m
      → offset + size ≤ block_sz
      → HasRoom m
      → (m' : Manager dev) × (read dev a offset size f m ≡ ok (f (view dev m a), m'))
        × IsCoherent dev m'
        × SameView dev m m'
  unfolding read
  read_lem {V} a offset size f m h fits room = elim (get_block_cache_lem dev a m h) [
    | inr (_, _, full, used) ↦ absurd (HasRoom-full m room full used)
    | inl (m1, res, h1, same, (e, found)) ↦ (
      release dev a m1,
      rw (res, ◌>>◌, found, le→leb (offset + size) block_sz fits)
          (ap {B = Result (V × Manager dev)} (λ (c : Block). ok (f c, release dev a m1))
            (sym (found_view m1 a e found) ∙ same a)),
      release-IsCoherent a m1 e found h1,
      λ b. release-SameView a m1 e found b ∙ same b,
    )
  ]
