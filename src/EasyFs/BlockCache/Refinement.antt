-- ===== src/EasyFs/BlockCache/Refinement.antt =====
-- The cache is transparent: its users see one disk, whichever blocks are in the queue.
use r_core_tutorial_code.Base.{
  ℕ, ◌≡◌, ◌≢◌, ◌≤◌, ◌<◌, refl, ap, sym, ◌∙◌, false, Option, none, some, List, length, ◌==◌, arith,
  Bool-cases, Option-cases, inl, inr, ==→eq, ==→ne, eq→==, ◌⊎◌, ne→==, length-append, ok, panic,
  Result,
}
use r_core_tutorial_code.EasyFs.BlockCache.{
  Entry, find_entry, find_unused, BlockDevice, content, sync, Manager, view, load, new_cache,
  replace, get_block_cache, change, clone, block_cache_size,
}
use r_core_tutorial_code.EasyFs.BlockCache.Queue.{
  Distinct, All, All-map, All-ne_of_none, All-zip, All-append, All-change, length-change,
  find_entry-append, find_entry-change_self, find_entry-change_ne, Distinct-change, Distinct-append,
}
use r_core_tutorial_code.EasyFs.BlockCache.Eviction.{
  Removed, find_unused-Removed, All-find_unused, find_unused-none_iff,
}

module _ (dev : BlockDevice) where
  open dev use {Dev, read_block, write_block, read-write_self, read-write_ne}

  -- A cached block stands under its id, and agrees with the device while it is clean.
  abbrev pub Agrees : Dev → Entry → Type 0
  Agrees d e =
      (e.block.block_id ≡ e.id) × (e.block.modified ≡ false → e.block.cache ≡ read_block d e.id)

  pub record IsCoherent (m : Manager dev) : Type 0 where
    pub distinct : Distinct m.queue
    pub agrees : All (Agrees m.device) m.queue
    pub bounded : length m.queue ≤ block_cache_size

  -- The write-back of a block that agrees with the device shows what the cache shows.
  module _ (d : Dev) (e : Entry) (h : Agrees d e) where
    pub read-sync_self : read_block (sync dev e.block d).1 e.id ≡ e.block.cache
    unfolding sync
    read-sync_self = elim (Bool-cases e.block.modified) [
      | inl x ↦ rw (x, h.0) (read-write_self d e.id e.block.cache)
      | inr x ↦ rw x (sym (h.1 x))
    ]

    pub read-sync_ne : (b : ℕ) → b ≢ e.id → read_block (sync dev e.block d).1 b ≡ read_block d b
    unfolding sync
    read-sync_ne b ne = elim (Bool-cases e.block.modified) [
      | inl x ↦ rw (x, h.0) (read-write_ne d e.id e.block.cache b ne)
      | inr x ↦ rw x
    ]

    pub Agrees-sync : (x : Entry) → x.id ≢ e.id → Agrees d x → Agrees (sync dev e.block d).1 x
    Agrees-sync x ne (p, q) = (p, λ c. q c ∙ sym (read-sync_ne x.id ne))

  -- A load of a block that is not in the queue changes nothing that is seen.
  module _ (a : ℕ) (es : List Entry) (d : Dev) (missing : find_entry a es ≡ none) where
    view-load : (b : ℕ) → view dev (load dev a es d) b ≡ content dev d b (find_entry b es)
    unfolding view load content
    view-load b = elim (Option-cases (find_entry b es)) [
      | inl out ↦ elim (Bool-cases (a == b)) [
        | inl x ↦ rw (find_entry-append, out, x) (ap (read_block d) (==→eq _ _ x))
        | inr x ↦ rw (find_entry-append, out, x)
      ]
      | inr (e, found) ↦ rw (find_entry-append, found)
    ]

    load-IsCoherent :
        Distinct es
        → All (Agrees d) es
        → length es < block_cache_size
        → IsCoherent (load dev a es d)
    unfolding load
    load-IsCoherent distinct agrees room = record {
      distinct = Distinct-append es _ distinct missing;
      agrees = All-append (Agrees d) es _ agrees (refl, λ _. refl);
      bounded = rw length-append (omega arith);
    }

  abbrev pub SameView : Manager dev → Manager dev → Type 0
  SameView m m' = (b : ℕ) → view dev m' b ≡ view dev m b

  abbrev pub IsCached : ℕ → Manager dev → Type 0
  IsCached a m = (e : Entry) × (find_entry a m.queue ≡ some e)

  load-IsCached :
      (a : ℕ) (es : List Entry) (d : Dev) → find_entry a es ≡ none → IsCached a (load dev a es d)
  unfolding load
  load-IsCached a es d missing = (
    record { id = a; block = new_cache dev a d; strong_count = 2 },
    rw (find_entry-append, missing, eq→== a a refl),
  )

  -- What `get_block_cache` gives: the block is in the queue, and no block is seen to change.
  abbrev pub Gets : ℕ → Manager dev → Result (Unit {0} × Manager dev) → Type 0
  Gets a m res =
      (m' : Manager dev) × (res ≡ ok (tt, m')) × IsCoherent m' × SameView m m' × IsCached a m'

  get_hit :
      (a : ℕ) (m : Manager dev) (e : Entry)
      → IsCoherent m
      → find_entry a m.queue ≡ some e
      → Gets a m (get_block_cache dev a m)
  unfolding get_block_cache view content
  get_hit a m e h found = (
    record m { queue = change a clone m.queue },
    rw (found, get_block_cache),
    record {
      distinct = Distinct-change a clone (λ _. refl) m.queue h.distinct;
      agrees = All-change (Agrees m.device) a clone (λ _ k. k) m.queue h.agrees;
      bounded = rw length-change h.bounded;
    },
    λ b. elim (Bool-cases (b == a)) [
      | inl x ↦
          let ba : b ≡ a = ==→eq _ _ x in
          rw (ba, find_entry-change_self a clone (λ _. refl) m.queue e found, found)
      | inr x ↦ rw (find_entry-change_ne a clone (λ _. refl) b m.queue (==→ne _ _ x))
    ],
    (clone e, find_entry-change_self a clone (λ _. refl) m.queue e found),
  )

  get_room :
      (a : ℕ) (m : Manager dev)
      → IsCoherent m
      → find_entry a m.queue ≡ none
      → length m.queue ≢ block_cache_size
      → Gets a m (get_block_cache dev a m)
  unfolding get_block_cache view
  get_room a m h missing ne = (
    load dev a m.queue m.device,
    rw (missing, get_block_cache, ne→== _ _ ne),
    load-IsCoherent a m.queue m.device missing h.distinct h.agrees (omega (arith, h.bounded)),
    view-load a m.queue m.device missing,
    load-IsCached a m.queue m.device missing,
  )

  -- The queue without the entry that is replaced, over the device to which it was written.
  module _ (a : ℕ) (m : Manager dev) (h : IsCoherent m) (missing : find_entry a m.queue ≡ none)
      (x : Entry) (rest : List Entry) (r : Removed m.queue x rest)
      (agrees : Agrees m.device x × All (Agrees m.device) rest) where
    after : Dev
    after = (sync dev x.block m.device).1

    rest-Agrees : All (Agrees after) rest
    unfolding after
    rest-Agrees =
        All-map (λ e. (e.id ≢ x.id) × Agrees m.device e) (Agrees after)
          (λ e (ne, k). Agrees-sync m.device x agrees.0 e ne k) rest
          (All-zip (λ e. e.id ≢ x.id) (Agrees m.device) rest (All-ne_of_none x.id rest r.gone)
            agrees.1)

    a_ne : a ≢ x.id
    a_ne p =
        let q : ◌≡◌ {A = Option Entry} none (some x) =
          sym missing ∙ ap (λ b. find_entry b m.queue) p ∙ r.found in
        absurd (cc)

    same_content :
        (b : ℕ)
        → content dev after b (find_entry b rest) ≡ content dev m.device b (find_entry b m.queue)
    unfolding content after
    same_content b = elim (Bool-cases (b == x.id)) [
      | inl y ↦
          let bx : b ≡ x.id = ==→eq _ _ y in
          rw (bx, r.gone, r.found) (read-sync_self m.device x agrees.0)
      | inr y ↦ rw (r.same b (==→ne _ _ y)) (other (find_entry b m.queue) (==→ne _ _ y))
    ]
      where
        other : (o : Option Entry) → b ≢ x.id → content dev after b o ≡ content dev m.device b o
        other none ne = read-sync_ne m.device x agrees.0 b ne
        other (some e) ne = refl

    replaced : Gets a m (ok (tt, load dev a rest after))
    unfolding view
    replaced = (
      load dev a rest after,
      refl,
      load-IsCoherent a rest after (r.same a a_ne ∙ missing) r.distinct rest-Agrees
          (omega (arith, h.bounded, r.shorter)),
      λ b. view-load a rest after (r.same a a_ne ∙ missing) b ∙ same_content b,
      load-IsCached a rest after (r.same a a_ne ∙ missing),
    )

  -- On a coherent cache, `get_block_cache` panics only where the block is not cached, the queue is
  -- full and every cached block is in use; else it returns a reference to the block, the cache
  -- stays coherent, and no block is seen to change, whether it was found, loaded, or loaded in the
  -- place of one that was written back.
  pub get_block_cache_lem :
      (a : ℕ) (m : Manager dev)
      → IsCoherent m
      → Gets a m (get_block_cache dev a m)
        ⊎ (get_block_cache dev a m ≡ panic)
          × (find_entry a m.queue ≡ none)
          × (length m.queue ≡ block_cache_size)
          × All (λ e. e.strong_count ≢ 1) m.queue
  unfolding get_block_cache replace after
  get_block_cache_lem a m h = elim (Option-cases (find_entry a m.queue)) [
    | inr (e, found) ↦ inl (get_hit a m e h found)
    | inl missing ↦ elim (Bool-cases (length m.queue == block_cache_size)) [
      | inr room ↦ inl (get_room a m h missing (==→ne _ _ room))
      | inl full ↦ elim (Option-cases (find_unused m.queue)) [
        | inl used ↦ inr (
          rw (missing, get_block_cache, full, used),
          missing,
          ==→eq _ _ full,
          (find_unused-none_iff m.queue).0 used,
        )
        | inr ((x, rest), unused) ↦ inl (
            rw (missing, get_block_cache, full, unused)
              (replaced a m h missing x rest (find_unused-Removed m.queue x rest h.distinct unused)
                (All-find_unused (Agrees m.device) m.queue x rest unused h.agrees)))
      ]
    ]
  ]
