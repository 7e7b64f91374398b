-- ===== src/Gc/Limit.antt =====
-- The limit of the store: `maxCacheSize`, which is computed in uint64. `math.Pow(2, 30)` is exact.
use spongix.Base.{ℕ, ◌+◌, ◌-◌, ◌*◌, ◌%◌, ◌^◌, ◌≤◌, ◌<◌, ◌≡◌, refl, arith}
use spongix.Lru.{u64}

abbrev pub max_cache_dir_portion : ℕ
max_cache_dir_portion = 0xffff * 4096

-- The difference of uint64 values.
abbrev pub sub_u64 : ℕ → ℕ → ℕ
sub_u64 a b = (a + (u64 - b)) % u64

unfoldable pub max_cache_size : ℕ → ℕ
max_cache_size cache_size = sub_u64 ((2 ^ 30 * cache_size) % u64) max_cache_dir_portion

-- From one gigabyte up to below 2 ^ 34 the limit is what it is meant to be: the configured size without
-- the room for the directories.
pub max_cache_size_exact :
    (cache_size : ℕ)
    → 1 ≤ cache_size
    → cache_size < 2 ^ 34
    → max_cache_size cache_size + max_cache_dir_portion ≡ 2 ^ 30 * cache_size
unfolding max_cache_size
max_cache_size_exact cache_size low high = omega arith

-- A size of zero, which is what `NewProxy` leaves, wraps around: no store is as large as the limit.
pub max_cache_size-zero : max_cache_size 0 ≡ 2 ^ 64 - max_cache_dir_portion
unfolding max_cache_size
max_cache_size-zero = refl
