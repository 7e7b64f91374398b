-- ===== src/Tests/Upstream.antt =====
-- The substituters: a server with one archive, and the theorems about it.
use spongix.Base.{
  ◌<◌, Bytes, true, false, List, [], ◌∷◌, ◌++◌, some, if◌then◌else◌, ◌≡◌, refl, codes, ◌⊎◌,
}
use spongix.Strings.{equal}
use spongix.Http.{Response, fresh}
use spongix.Cache.Handlers.{Request}
use spongix.Cache.Agree.{nar_path}
use spongix.Cache.Archives.{nar_request}
use spongix.Cache.Upstream.{Reply, Client, is_success}
use spongix.Cache.Upstream.Local.{upstream_nar}
use spongix.Cache.Remote.{cache_chan_size, Urls, exts_for, remote_response, serve_remote}
use spongix.Cache.Remote.Sound.{Resolved, serve_remote-Resolved}
use spongix.Tests.Stores.{toy_store, cut}
use spongix.Tests.Caching.{texts, whole}

abbrev pub nixos : Bytes
nixos = codes "https://nixos"

abbrev pub archive : Bytes
archive = upstream_nar nixos true (codes "00abc")

abbrev pub archive_reply : Reply
archive_reply = record { status = 200; url = archive; body = whole (codes "data") }

abbrev missing : Reply
missing = record { status = 404; url = codes "https://nixos/nar/1.nar"; body = whole [] }

-- The server has the archive, compressed.
abbrev pub client : Client
client = record {
  parse_url = λ url. some (nar_path false true (codes "00abc"));
  fetch = λ method url. if equal url archive then some archive_reply else some missing;
}

abbrev pub urls : Urls
urls = record {
  resolve = λ substituter path. some (substituter ++ path);
  can_request = λ method url. true;
}

abbrev pub asked : Request
asked = nar_request (codes "GET") false false (codes "00abc") (whole [])

abbrev pub fetched : toy_store.World
fetched = (codes "nar/00abc.nar", cut (codes "data")) ∷ []

abbrev endings : List Bytes
endings = [] ∷ codes ".xz" ∷ []

-- The first request fails with 404, the second has the archive.
abbrev remote_answer : Response
unfolding remote_response
remote_answer = remote_response texts client urls asked archive_reply

remote_run :
    serve_remote texts client urls asked (nixos ∷ []) endings (some 0) fresh []
    ≡ some (archive ∷ [], remote_answer)
unfolding serve_remote equal remote_answer
remote_run = refl

serve_remote-Resolved_example :
    (((archive ∷ []) ≡ []) × (remote_answer ≡ fresh))
    ⊎ ((found : List Bytes) × (url : Bytes) × (reply : Reply) × (exts_for asked.url endings
          ≡ some found)
        × (Resolved texts client urls asked (nixos ∷ []) found url
            × ((client.fetch (codes "GET") url ≡ some reply)
                × ((is_success reply ≡ true)
                    × ((((archive ∷ []) ≡ reply.url ∷ [])
                          × (remote_answer ≡ remote_response texts client urls asked reply))
                        × (0 < cache_chan_size))))))
serve_remote-Resolved_example =
    serve_remote-Resolved texts client urls asked (nixos ∷ []) endings [] (archive ∷ []) (some 0)
      fresh remote_answer remote_run
