-- ===== src/Startup.antt =====
-- main.go: the proxy, as `NewProxy` and the command line leave it, without its log and its channel, and the
-- parts of `main` that set it up. `none` is the end of the program by `Fatal`. The file system, the
-- constructors of the stores and the parsing of URLs are parameters; a store that is not nil is `true`.
pub mod Dirs
pub mod Ready
use spongix.Base.{
  ℕ, ◌*◌, ◌/◌, ◌%◌, Bytes, List, [], ◌∷◌, Option, none, some, Bool, true, false, codes, null,
  if◌then◌else◌,
}
use spongix.Base.Options.{◌>>=◌}
use spongix.Strings.Clean.{join_paths}
use spongix.Lru.{u64}
use spongix.Narinfo.Signatures.{Keys}
use spongix.Keys.{Loaded, loaded, refused, load_nix_private_keys, load_nix_public_keys}

-- Durations are in nanoseconds.
pub record Proxy : Type 0 where
  pub bucket_url : Bytes
  pub bucket_region : Bytes
  pub dir : Bytes
  pub listen : Bytes
  pub secret_key_files : List Bytes
  pub substituters : List Bytes
  pub trusted_public_keys : List Bytes
  pub cache_info_priority : ℕ
  pub average_chunk_size : ℕ
  pub cache_size : ℕ
  pub verify_interval : ℕ
  pub gc_interval : ℕ
  pub log_level : Bytes
  pub log_mode : Bytes
  pub secret_keys : Keys
  pub trusted_keys : Keys
  pub s3_store : Bool
  pub local_store : Bool
  pub s3_index : Bool
  pub local_index : Bool

abbrev pub chunk_size_avg : ℕ
chunk_size_avg = 65536

abbrev pub chunk_size_min : ℕ → ℕ
chunk_size_min avg = avg / 4

abbrev pub chunk_size_max : ℕ → ℕ
chunk_size_max avg = avg * 4 % u64

abbrev pub hour : ℕ
hour = 3600000000000

abbrev pub new_proxy : Proxy
new_proxy = record {
  bucket_url = [];
  bucket_region = [];
  dir = codes "./cache";
  listen = codes ":7745";
  secret_key_files = [];
  substituters = [];
  trusted_public_keys = [];
  cache_info_priority = 50;
  average_chunk_size = chunk_size_avg;
  cache_size = 0;
  verify_interval = hour;
  gc_interval = hour;
  log_level = codes "debug";
  log_mode = codes "production";
  secret_keys = [];
  trusted_keys = [];
  s3_store = false;
  local_store = false;
  s3_index = false;
  local_index = false;
}

abbrev pub state_dirs : List Bytes
state_dirs =
    codes "store"
    ∷ codes "index"
    ∷ codes "index/nar"
    ∷ codes "tmp"
    ∷ codes "trash/index"
    ∷ codes "oci"
    ∷ []

-- The calls; `false` is an error. A constructor of a store gets its directory, or its URL and region.
pub record Host : Type 1 where
  pub Files : Type 0
  pub stat : Bytes → Files → Bool
  pub mkdir_all : Bytes → Files → Files × Bool
  pub new_local_store : Bytes → Files → Bool
  pub new_local_index_store : Bytes → Files → Bool
  pub read_file : Bytes → Option Bytes
  pub decode : Bytes → Option Bytes
  pub parses : Bytes → Bool
  pub new_s3_store : Bytes → Bytes → Bool

module _ (host : Host) where
  abbrev pub unless_failed : host.Files × Bool → Option host.Files
  unless_failed (s, true) = some s
  unless_failed (s, false) = none

  unfoldable pub setup_dir : Proxy → Bytes → host.Files → Option host.Files
  unfolding join_paths
  setup_dir p path s =
      let dir = join_paths (p.dir ∷ path ∷ []) in
      if host.stat dir s then some s else unless_failed (host.mkdir_all dir s)

  unfoldable pub setup_dirs : Proxy → List Bytes → host.Files → Option host.Files
  unfolding setup_dir
  setup_dirs p [] s = some s
  setup_dirs p (path ∷ paths) s = do s' ← setup_dir p path s; setup_dirs p paths s'

  abbrev pub with_stores : Proxy → Bool → Bool → Option Proxy
  with_stores p false index = none
  with_stores p true false = none
  with_stores p true true = some (record p { local_store = true; local_index = true })

  unfoldable pub setup_desync : Proxy → host.Files → Option (host.Files × Proxy)
  unfolding setup_dirs join_paths
  setup_desync p s = do
    s' ← setup_dirs p state_dirs s
    p' ←
        with_stores p (host.new_local_store (join_paths (p.dir ∷ codes "store" ∷ [])) s')
          (host.new_local_index_store (join_paths (p.dir ∷ codes "index" ∷ [])) s')
    some (s', p')

  abbrev pub unless_refused : Loaded Keys → Option Keys
  unless_refused (loaded keys) = some keys
  unless_refused (refused e) = none

  unfoldable pub setup_keys : Proxy → Option Proxy
  unfolding load_nix_private_keys load_nix_public_keys
  setup_keys p = do
    secret ← unless_refused (load_nix_private_keys host.decode host.read_file p.secret_key_files)
    trusted ← unless_refused (load_nix_public_keys host.decode p.trusted_public_keys)
    some (record p { secret_keys = secret; trusted_keys = trusted })

  abbrev pub with_s3 : Proxy → Bool → Bool → Option Proxy
  with_s3 p false made = none
  with_s3 p true false = none
  with_s3 p true true = some (record p { s3_store = true })

  unfoldable pub setup_s3 : Proxy → Option Proxy
  setup_s3 p =
      if null p.bucket_url
      then some p
      else if null p.bucket_region
      then some p
      else with_s3 p (host.parses p.bucket_url) (host.new_s3_store p.bucket_url p.bucket_region)

  -- The calls of `main`, in their order.
  unfoldable pub setup : Proxy → host.Files → Option (host.Files × Proxy)
  unfolding setup_desync setup_keys setup_s3
  setup p s = do
    made ← setup_desync p s
    keyed ← setup_keys made.1
    p' ← setup_s3 keyed
    some (made.0, p')
