-- ===== src/EasyFs/BlockCache/SyncAll.antt =====
-- `block_cache_sync_all`: afterwards the device holds what the cache showed.
use r_core_tutorial_code.Base.{
  ℕ, suc, ◌≡◌, ◌≢◌, refl, ap, sym, ◌∙◌, true, false, Option, none, some, List, [], ◌∷◌, length,
  ◌==◌, arith, Bool-cases, Option-cases, inl, inr, ==→eq, ==→ne, eq→==, ne→==, map, ◌⊎◌,
}
use r_core_tutorial_code.EasyFs.BlockCache.{
  Entry, find_entry, BlockDevice, content, sync, Manager, view, sync_queue, block_cache_sync_all,
}
use r_core_tutorial_code.EasyFs.BlockCache.Queue.{Distinct, All, All-map, All-ne_of_none, All-zip}
use r_core_tutorial_code.EasyFs.BlockCache.Refinement.{
  IsCoherent, Agrees, Agrees-sync, read-sync_self, read-sync_ne, SameView,
}

abbrev clean : Entry → Entry
clean e = record e { block = record block { modified = false } }
  where
    open e use {block}

length-clean : (es : List Entry) → length (map clean es) ≡ length es
length-clean [] = refl
length-clean (e ∷ es) = ap suc (length-clean es)

find_entry-clean-none :
    (b : ℕ) (es : List Entry) → find_entry b es ≡ none → find_entry b (map clean es) ≡ none
unfolding find_entry
find_entry-clean-none b [] h = refl
find_entry-clean-none b (e ∷ es) h = elim (Bool-cases (e.id == b)) [
  | inl x ↦ absurd (ground arith)
  | inr x ↦ rw x (find_entry-clean-none b es (rw x at h))
]

find_entry-clean-some :
    (b : ℕ) (es : List Entry) (e : Entry)
    → find_entry b es ≡ some e
    → find_entry b (map clean es) ≡ some (clean e)
unfolding find_entry
find_entry-clean-some b [] e h = absurd (cc)
find_entry-clean-some b (x ∷ es) e h = elim (Bool-cases (x.id == b)) [
  | inl y ↦ rw y (ap (λ z. some (clean z)) (let xe : x ≡ e = ground arith in xe))
  | inr y ↦ rw y (find_entry-clean-some b es e (rw y at h))
]

Distinct-clean : (es : List Entry) → Distinct es → Distinct (map clean es)
Distinct-clean [] h = tt
Distinct-clean (e ∷ es) (h, hs) = (find_entry-clean-none e.id es h, Distinct-clean es hs)

module _ (dev : BlockDevice) where
  open dev use {Dev, read_block}

  sync-clean : (e : Entry) (d : Dev) → record e { block = (sync dev e.block d).0 } ≡ clean e
  unfolding sync
  sync-clean e d = elim (Bool-cases e.block.modified) [
    | inl x ↦ rw x
    | inr x ↦ simp x (λ i. record e { block = record block { modified = x i } })
  ]
    where
      open e use {block}

  sync_queue-clean : (es : List Entry) (d : Dev) → (sync_queue dev es d).0 ≡ map clean es
  unfolding sync_queue
  sync_queue-clean [] d = refl
  sync_queue-clean (e ∷ es) d = cc (sync-clean e d, sync_queue-clean es (sync dev e.block d).1)

  -- The device ends with what the queue and it showed.
  sync_queue-read :
      (es : List Entry) (d : Dev)
      → Distinct es
      → All (Agrees dev d) es
      → (b : ℕ) → read_block (sync_queue dev es d).1 b ≡ content dev d b (find_entry b es)
  unfolding sync_queue content find_entry
  sync_queue-read [] d h ag b = refl
  sync_queue-read (e ∷ es) d (h, hs) (ag, ags) b =
      sync_queue-read es (sync dev e.block d).1 hs (after_sync h ags) b
      ∙ first (Bool-cases (e.id == b))
    where
      after_sync :
          find_entry e.id es ≡ none
          → All (Agrees dev d) es
          → All (Agrees dev (sync dev e.block d).1) es
      after_sync h ags =
          All-map (λ x. (x.id ≢ e.id) × Agrees dev d x) (Agrees dev (sync dev e.block d).1)
            (λ x (ne, k). Agrees-sync dev d e ag x ne k) es
            (All-zip (λ x. x.id ≢ e.id) (Agrees dev d) es (All-ne_of_none e.id es h) ags)

      other :
          (o : Option Entry) → b ≢ e.id → content dev (sync dev e.block d).1 b o ≡ content dev d b o
      other none ne = read-sync_ne dev d e ag b ne
      other (some x) ne = refl

      first :
          ((e.id == b) ≡ true) ⊎ ((e.id == b) ≡ false)
          → content dev (sync dev e.block d).1 b (find_entry b es)
            ≡ content dev d b (find_entry b (e ∷ es))
      first (inl x) =
          let eb : e.id ≡ b = ==→eq _ _ x in
          let out : find_entry b es ≡ none = rw eb at h in
          rw (x, out) (rw eb at (read-sync_self dev d e ag))
      first (inr x) = rw x (other (find_entry b es) (λ p. ==→ne _ _ x (sym p)))

  -- The queue shows what it showed, and is clean.
  clean-content :
      (d d' : Dev) (es : List Entry) (b : ℕ)
      → read_block d' b ≡ content dev d b (find_entry b es)
      → content dev d' b (find_entry b (map clean es)) ≡ content dev d b (find_entry b es)
  unfolding content
  clean-content d d' es b h = elim (Option-cases (find_entry b es)) [
    | inl out ↦ rw (find_entry-clean-none b es out, out) (rw out at h)
    | inr (e, found) ↦ rw (find_entry-clean-some b es e found, found)
  ]

  -- A search for the id of an entry finds that entry.
  content-All :
      (d : Dev) (es : List Entry)
      → Distinct es
      → All (λ e. content dev d e.id (find_entry e.id es) ≡ e.block.cache) es
  unfolding content find_entry
  content-All d [] hs = tt
  content-All d (e ∷ es) (out, hs) = (
    rw (eq→== e.id e.id refl),
    All-map (λ x. (x.id ≢ e.id) × (content dev d x.id (find_entry x.id es) ≡ x.block.cache))
        (λ x. content dev d x.id (find_entry x.id (e ∷ es)) ≡ x.block.cache)
        (λ x (ne, k). rw (ne→== e.id x.id (λ p. ne (sym p))) k) es
        (All-zip (λ x. x.id ≢ e.id) (λ x. content dev d x.id (find_entry x.id es) ≡ x.block.cache)
          es (All-ne_of_none e.id es out) (content-All d es hs)),
  )

  clean-Agrees :
      (d : Dev) (es : List Entry)
      → All (λ e. (e.block.block_id ≡ e.id) × (read_block d e.id ≡ e.block.cache)) es
      → All (Agrees dev d) (map clean es)
  clean-Agrees d [] h = tt
  clean-Agrees d (e ∷ es) ((i, r), h) = ((i, λ _. sym r), clean-Agrees d es h)

  All-Agrees :
      (d d' : Dev) (es : List Entry)
      → Distinct es
      → All (Agrees dev d) es
      → ((b : ℕ) → read_block d' b ≡ content dev d b (find_entry b es))
      → All (Agrees dev d') (map clean es)
  All-Agrees d d' es hs ags h = clean-Agrees d' es (
      All-map (λ e. Agrees dev d e × (content dev d e.id (find_entry e.id es) ≡ e.block.cache))
        (λ e. (e.block.block_id ≡ e.id) × (read_block d' e.id ≡ e.block.cache))
        (λ e (ag, c). (ag.0, h e.id ∙ c)) es
        (All-zip (Agrees dev d) (λ e. content dev d e.id (find_entry e.id es) ≡ e.block.cache) es
          ags (content-All d es hs)))

  -- On a coherent cache, `block_cache_sync_all` keeps the cache coherent and what is seen, and
  -- leaves a device that holds, block for block, what the cache shows.
  pub block_cache_sync_all_lem :
      (m : Manager dev)
      → IsCoherent dev m
      → let m' = block_cache_sync_all dev m in
        IsCoherent dev m' × SameView dev m m' × ((b : ℕ) → read_block m'.device b ≡ view dev m' b)
  unfolding block_cache_sync_all view
  block_cache_sync_all_lem m h =
      let d' = (sync_queue dev m.queue m.device).1 in
      let reads = sync_queue-read m.queue m.device h.distinct h.agrees in
      let shows = λ (b : ℕ). clean-content m.device d' m.queue b (reads b) in
      rw (sync_queue-clean m.queue m.device) (
        record {
          distinct = Distinct-clean m.queue h.distinct;
          agrees = All-Agrees m.device d' m.queue h.distinct h.agrees reads;
          bounded = rw length-clean h.bounded;
        },
        shows,
        λ b. reads b ∙ sym (shows b),
      )
