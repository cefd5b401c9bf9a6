-- ===== src/EasyFs/BlockCache.antt =====
-- easy-fs/src/block_cache.rs and block_dev.rs: the write-back cache of sixteen blocks in front of
-- a device, which is a parameter. An `Arc` is the count of its references, kept with the block.
pub mod Queue
pub mod Eviction
pub mod Refinement
pub mod Access
pub mod SyncAll
use r_core_tutorial_code.Base.{
  ℕ, ◌+◌, ◌-◌, ◌≡◌, ◌≢◌, Bool, true, false, Option, none, some, List, [], ◌∷◌, ◌++◌, State, Result,
  ok, panic, pure, fail, ◌>>=◌, ◌>>◌, assert, gets, modify, unwrap, length, ◌==◌, leb,
  if◌then◌else◌,
}
use r_core_tutorial_code.EasyFs.Block.{Block, block_sz}

-- The trait of the devices, with what the code relies on: a block that is written is read back,
-- and the others stay.
pub record BlockDevice : Type 1 where
  pub Dev : Type 0
  pub read_block : Dev → ℕ → Block
  pub write_block : Dev → ℕ → Block → Dev
  pub read-write_self : (d : Dev) (a : ℕ) (b : Block) → read_block (write_block d a b) a ≡ b
  pub read-write_ne :
      (d : Dev) (a : ℕ) (b : Block) (c : ℕ)
      → c ≢ a
      → read_block (write_block d a b) c ≡ read_block d c

pub record BlockCache : Type 0 where
  pub cache : Block
  pub block_id : ℕ
  pub modified : Bool

-- A pair of the queue: `strong_count` counts the references to the cached block, the queue's own
-- among them.
pub record Entry : Type 0 where
  pub id : ℕ
  pub block : BlockCache
  pub strong_count : ℕ

-- `BLOCK_CACHE_SIZE`
abbrev pub block_cache_size : ℕ
block_cache_size = 16

-- The search of the queue by block id.
unfoldable pub find_entry : ℕ → List Entry → Option Entry
find_entry a [] = none
find_entry a (e ∷ es) = if e.id == a then some e else find_entry a es

-- A change of the cached block that a reference leads to.
unfoldable pub change : ℕ → (Entry → Entry) → List Entry → List Entry
change a f [] = []
change a f (e ∷ es) = if e.id == a then f e ∷ es else e ∷ change a f es

-- `Arc::clone`, and the drop of a clone.
abbrev pub clone : Entry → Entry
clone e = record e { strong_count = e.strong_count + 1 }

abbrev pub drop_clone : Entry → Entry
drop_clone e = record e { strong_count = e.strong_count - 1 }

abbrev pub keep : Entry → Option (Entry × List Entry) → Option (Entry × List Entry)
keep e none = none
keep e (some (x, rest)) = some (x, e ∷ rest)

-- The first entry to which only the queue refers, and the queue without it.
unfoldable pub find_unused : List Entry → Option (Entry × List Entry)
find_unused [] = none
find_unused (e ∷ es) = if e.strong_count == 1 then some (e, es) else keep e (find_unused es)

module _ (dev : BlockDevice) where
  open dev use {Dev, read_block, write_block}

  -- The manager's queue, and the device behind it.
  pub record Manager : Type 0 where
    pub queue : List Entry
    pub device : Dev

  -- `BlockCache::new`
  unfoldable pub new_cache : ℕ → Dev → BlockCache
  new_cache block_id d = record {
    cache = read_block d block_id;
    block_id = block_id;
    modified = false;
  }

  -- `BlockCache::sync`: what becomes of the cached block and of the device.
  unfoldable pub sync : BlockCache → Dev → BlockCache × Dev
  sync c d =
      if c.modified
      then (record c { modified = false }, write_block d c.block_id c.cache)
      else (c, d)

  -- A load of a block behind the queue; `Arc::new`, with a clone for the queue.
  unfoldable pub load : ℕ → List Entry → Dev → Manager
  unfolding new_cache
  load a es d = record {
    queue = es ++ record { id = a; block = new_cache a d; strong_count = 2 } ∷ [];
    device = d;
  }

  -- An entry that is drained from the queue is dropped, and syncs as it goes.
  unfoldable pub replace : ℕ → Dev → Option (Entry × List Entry) → Result (Unit {0} × Manager)
  unfolding load sync
  replace a d none = panic
  replace a d (some (e, rest)) = ok (tt, load a rest (sync e.block d).1)

  -- `BlockCacheManager::get_block_cache`. The reference is the block's id: the queue has one
  -- entry for it as long as the reference lives.
  unfoldable pub get_block_cache : ℕ → State Manager (Unit {0})
  unfolding replace find_entry change find_unused
  get_block_cache a m = elim (find_entry a m.queue) [
    | some e ↦ ok (tt, record m { queue = change a clone m.queue })
    | none ↦
        if length m.queue == block_cache_size
        then replace a m.device (find_unused m.queue)
        else ok (tt, load a m.queue m.device)
  ]

  -- The drop of a reference.
  unfoldable pub release : ℕ → Manager → Manager
  release a m = record m { queue = change a drop_clone m.queue }

  -- `BlockCache::get_mut` behind a reference, with the write through it.
  unfoldable pub write_mut : (Block → Block) → Entry → Entry
  write_mut f e = record e { block = record block { cache = f block.cache; modified = true } }
    where
      open e use {block}

  -- `get_block_cache(a).lock().read(offset, f)` with a value of `size` bytes.
  unfoldable pub read : {V : Type 0} → ℕ → (offset size : ℕ) → (Block → V) → State Manager V
  unfolding get_block_cache release
  read a offset size f = do
    get_block_cache a
    e ← gets (λ m. find_entry a m.queue)
    c ← unwrap e
    assert (leb (offset + size) block_sz)
    modify (release a)
    pure (f c.block.cache)

  -- `get_block_cache(a).lock().modify(offset, f)`
  unfoldable pub modify_block : ℕ → (offset size : ℕ) → (Block → Block) → State Manager (Unit {0})
  unfolding get_block_cache release write_mut
  modify_block a offset size f = do
    get_block_cache a
    assert (leb (offset + size) block_sz)
    modify (λ m. record m { queue = change a (write_mut f) m.queue })
    modify (release a)

  -- The loop of `block_cache_sync_all`.
  unfoldable pub sync_queue : List Entry → Dev → List Entry × Dev
  unfolding sync
  sync_queue [] d = ([], d)
  sync_queue (e ∷ es) d =
      let (c, d') = sync e.block d in
      let (rest, d'') = sync_queue es d' in (record e { block = c } ∷ rest, d'')

  unfoldable pub block_cache_sync_all : Manager → Manager
  unfolding sync_queue
  block_cache_sync_all m =
      let (q, d) = sync_queue m.queue m.device in record { queue = q; device = d }

  -- What the users of the cache see: the cached block if there is one, else the device's.
  unfoldable pub content : Dev → ℕ → Option Entry → Block
  content d a none = read_block d a
  content d a (some e) = e.block.cache

  unfoldable pub view : Manager → ℕ → Block
  unfolding content find_entry
  view m a = content m.device a (find_entry a m.queue)
