-- ===== src/Tests/Routing.antt =====
-- The routes from a miss to a hit, and the log.
use spongix.Base.{
  ◌||◌, subst, ap, Bytes, List, [], ◌∷◌, none, some, Bool, true, false, codes, ◌≡◌, refl, arith,
}
use spongix.Strings.{equal}
use spongix.Strings.Parts.{equal_self}
use spongix.Assoc.{insert, lookup}
use spongix.Http.{Response, status_of, fresh}
use spongix.Cache.Archives.{nar_request}
use spongix.Cache.Handlers.{Request, serve_http, serve_not_found}
use spongix.Cache.Serves.{IsHit}
use spongix.Cache.Upstream.{cache_url}
use spongix.Cache.Remote.{serve_remote, remote_response}
use spongix.Startup.{Proxy, Host, new_proxy, setup}
use spongix.Startup.Dirs.{HostLaws}
use spongix.Startup.Ready.{IsReady, setup-IsReady}
use spongix.Router.{Handler, queued, remote, route, nar_exts}
use spongix.Router.Chain.{setup-route, route-fetched}
use spongix.Logging.{Call, sets, sends, writes, run, req, res, info, with_http_logging}
use spongix.Logging.Statuses.{with_http_logging-status}
use spongix.Tests.Samples.{toy}
use spongix.Tests.Stores.{toy_store, toy_store-Laws}
use spongix.Tests.Caching.{texts, whole}
use spongix.Tests.Upstream.{client, urls, nixos, archive, archive_reply, asked, fetched}

abbrev has_dir : Bytes → List Bytes → Bool
has_dir dir [] = false
has_dir dir (d ∷ s) = equal d dir || has_dir dir s

-- Directories are made, and nothing else fails.
abbrev host : Host
host = record {
  Files = List Bytes;
  stat = has_dir;
  mkdir_all = λ dir s. (dir ∷ s, true);
  new_local_store = λ dir s. true;
  new_local_index_store = λ dir s. true;
  read_file = λ path. some (codes "b:1");
  decode = some;
  parses = λ url. true;
  new_s3_store = λ url region. true;
}

host-HostLaws : HostLaws host
unfolding equal
host-HostLaws = record {
  made =
      λ dir s s' e. subst (λ z. has_dir dir z ≡ true) (ap (λ q. q.0) e) (rw (equal_self dir) refl);
  kept = λ dir other s h. ground (arith, h);
}

-- With a bucket, a key and a substituter.
abbrev given : Proxy
given = record new_proxy {
  bucket_url = codes "s3";
  bucket_region = codes "eu";
  secret_key_files = codes "/key" ∷ [];
  substituters = nixos ∷ [];
}

abbrev configured : Proxy
configured = record given {
  secret_keys = (codes "b", codes "1") ∷ [];
  s3_store = true;
  local_store = true;
  local_index = true;
}

abbrev made_dirs : List Bytes
made_dirs =
    codes "cache/oci"
    ∷ codes "cache/trash/index"
    ∷ codes "cache/tmp"
    ∷ codes "cache/index/nar"
    ∷ codes "cache/index"
    ∷ codes "cache/store"
    ∷ []

started : setup host given [] ≡ some (made_dirs, configured)
unfolding setup equal insert
started = refl

setup-IsReady_example : IsReady host host-HostLaws given made_dirs configured
setup-IsReady_example = setup-IsReady host host-HostLaws given configured [] made_dirs started

-- A cache that would panic.
abbrev s3_cache : Request → Handler (queued toy_store).World → Handler (queued toy_store).World
s3_cache r h s = none

setup-route_example :
    route toy_store texts toy client urls configured s3_cache nar_exts (some 0) asked
    ≡ serve_http
        (queued toy_store)
        texts
        toy
        []
        ((codes "b", codes "1") ∷ [])
        asked
        (remote toy_store texts toy client urls (nixos ∷ []) nar_exts (some 0) asked)
setup-route_example =
    setup-route host host-HostLaws toy_store texts toy client urls given configured [] made_dirs
      s3_cache nar_exts (some 0) asked refl started

asked_run :
    serve_remote texts client urls asked (nixos ∷ []) nar_exts (some 0) serve_not_found []
    ≡ some (archive ∷ [], remote_response texts client urls asked archive_reply)
unfolding serve_remote equal
asked_run = refl

fetched_run :
    cache_url (queued toy_store) texts client archive ([], archive ∷ [])
    ≡ ((fetched, archive ∷ []), true)
unfolding cache_url equal insert
fetched_run = refl

route-fetched_example :
    (a : Response) × (g : Response) × (route toy_store texts toy client urls configured s3_cache
        nar_exts
        (some 0)
        asked
        ([], [])
      ≡ some (([], archive ∷ []), a))
    × ((a.body ≡ codes "data")
        × ((route toy_store texts toy client urls configured s3_cache nar_exts none
                (nar_request (codes "GET") true true (codes "00abc") (whole []))
                (fetched, archive ∷ [])
              ≡ some ((fetched, archive ∷ []), g))
            × IsHit g (codes "xdata")))
unfolding equal lookup
route-fetched_example =
    route-fetched host host-HostLaws toy_store texts toy client urls toy_store-Laws given configured
      [] made_dirs s3_cache (some 0) none nixos (codes "00abc") (codes "data") true true true
      archive_reply (whole []) [] [] (fetched, archive ∷ []) refl started (omega arith)
      (omega arith) refl refl asked_run refl refl refl refl fetched_run

-- The answer 404 of a handler.
abbrev missing_calls : List Call
missing_calls = sets (codes "X-Cache") (codes "MISS") ∷ sends 404 ∷ writes (codes "not found") ∷ []

with_http_logging-status_example :
    with_http_logging (codes "/metrics") missing_calls fresh
    ≡ (res info 404 ∷ [], run missing_calls fresh)
unfolding equal run
with_http_logging-status_example = with_http_logging-status (codes "/metrics") missing_calls tt

-- The calls of `blobUploadPut` when the blob is not stored.
abbrev failed_calls : List Call
failed_calls =
    sends 500 ∷ writes (codes "{}") ∷ sets (codes "Content-Length") (codes "0") ∷ sends 201 ∷ []

-- The client gets the status 500, and the log has 201.
failed_run : (with_http_logging (codes "/v2/") failed_calls fresh).0 ≡ req ∷ res info 201 ∷ []
unfolding with_http_logging
failed_run = refl

failed_status : status_of (run failed_calls fresh) ≡ 500
unfolding run
failed_status = refl
