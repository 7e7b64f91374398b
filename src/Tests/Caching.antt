-- ===== src/Tests/Caching.antt =====
-- The binary cache: runs, and the theorems at concrete requests.
use spongix.Base.{
  Bytes, true, false, [], ◌∷◌, ◌++◌, Option, some, ◌≡◌, ◌≢◌, refl, codes, arith, All, Input, ◌⊎◌,
}
use spongix.Strings.{ext, split}
use spongix.Http.{Response, fresh, set_header, write_header, write_body}
use spongix.Narinfo.{Narinfo, blank, ok}
use spongix.Narinfo.Marshal.{marshal}
use spongix.Narinfo.Unmarshal.{unmarshal}
use spongix.Narinfo.RoundTrip.{read_back, unmarshal-marshal}
use spongix.Narinfo.Signatures.{sign_msg, find_key}
use spongix.Narinfo.Signatures.Kept.{Verifies}
use spongix.Narinfo.Sanitize.{sanitize_nar}
use spongix.Narinfo.Storage.{prepare_for_storage}
use spongix.Cache.Names.{url_to_index_name}
use spongix.Cache.Agree.{url_to_index_name-nar, url_to_index_name-Below, Below}
use spongix.Cache.Handlers.{
  Request, Texts, get, put, put_narinfo, put_text, serve_http, answer, serve_not_found,
}
use spongix.Cache.Serves.{IsHit}
use spongix.Cache.Archives.{nar_request, serve_http-nar}
use spongix.Cache.Narinfos.{put-get_signed}
use spongix.Tests.Samples.{sample, toy, trusted_keys, secret_keys}
use spongix.Tests.Narinfos.{sample-IsWritable}
use spongix.Tests.Stores.{toy_store, toy_store-Laws, cut}

-- Compression adds one byte in front.
abbrev pub texts : Texts
texts = record { compress = λ b. b'x' ∷ b; decompress = λ i. i; error_text = λ e. codes "error" }

abbrev pub not_found : toy_store.World → Option (toy_store.World × Response)
not_found w = some (w, serve_not_found)

abbrev pub whole : Bytes → Input
whole bytes = record { content = bytes; failed = false }

url_to_index_name-nar_example :
    url_to_index_name (codes "/cache/nar/00abc.nar.xz") ≡ some (codes "nar/00abc.nar")
url_to_index_name-nar_example =
    url_to_index_name-nar true true (codes "00abc") (omega arith) (omega arith)

-- Dots that lead out of the directory are dropped.
name-dots : url_to_index_name (codes "/../../nar/./a") ≡ some (codes "nar/a")
unfolding url_to_index_name
name-dots = refl

url_to_index_name-Below_example :
    (codes "nar/a" ≡ codes ".") ⊎ All Below (split b'/' (codes "nar/a"))
url_to_index_name-Below_example =
    url_to_index_name-Below (codes "/../../nar/./a") (codes "nar/a") name-dots

abbrev put_nar : Request
put_nar = nar_request (codes "PUT") false false (codes "00abc") (whole (codes "data"))

abbrev nar_kept : toy_store.World
nar_kept = (codes "nar/00abc.nar", cut (codes "data")) ∷ []

abbrev ok_answer : Response
unfolding answer set_header write_header write_body
ok_answer = answer 200 (codes "text/plain") (codes "ok\n") fresh

put_nar_run :
    serve_http toy_store texts toy trusted_keys secret_keys put_nar not_found []
    ≡ some (nar_kept, ok_answer)
unfolding serve_http
put_nar_run = refl

serve_http-nar_example :
    (g : Response) × (serve_http toy_store texts toy trusted_keys secret_keys
        (nar_request (codes "GET") true true (codes "00abc") (whole []))
        not_found
        nar_kept
      ≡ some (nar_kept, g))
    × IsHit g (codes "xdata")
unfolding ok_answer
serve_http-nar_example =
    serve_http-nar toy_store texts toy trusted_keys secret_keys toy_store-Laws not_found
      (codes "00abc") false false true true (whole (codes "data")) (whole []) (codes "data") []
      nar_kept ok_answer (omega arith) (omega arith) refl put_nar_run refl

abbrev put_info : Request
put_info = record {
  method = codes "PUT";
  url = codes "/00abc.narinfo";
  escaped_path = codes "/00abc.narinfo";
  body = whole (marshal sample);
}

-- What is stored of the sample: its URL has no compression, and the key signs it.
abbrev stored : Narinfo
stored = record (sanitize_nar (read_back sample)) {
  sig = (codes "test:" ++ codes "0123456789abcdef0123456789abcdef" ++ sign_msg sample) ∷ [];
}

abbrev info_kept : toy_store.World
info_kept = (codes "00abc.narinfo", cut (marshal stored)) ∷ []

sample_reads : unmarshal blank (some (whole (marshal sample))) ≡ ok (read_back sample)
sample_reads = unmarshal-marshal sample sample-IsWritable

put_info_run :
    put toy_store texts toy trusted_keys secret_keys put_info [] ≡ some (info_kept, ok_answer)
unfolding put put_narinfo put_text prepare_for_storage marshal sign_msg sanitize_nar
put_info_run = rw sample_reads refl

put-get_signed_example :
    (g : Response) × (get toy_store texts put_info not_found info_kept ≡ some (info_kept, g))
    × ((r : Narinfo) × IsHit g (marshal r)
        × ((r ≡ record (sanitize_nar (read_back sample)) { sig = r.sig })
            × ((r.sig ≢ []) × All (Verifies toy trusted_keys (sign_msg (read_back sample))) r.sig)))
unfolding find_key ok_answer ext
put-get_signed_example =
    put-get_signed toy_store texts toy trusted_keys secret_keys toy_store-Laws put_info put_info
      (read_back sample) not_found [] info_kept ok_answer ((omega arith, refl), tt) (λ e. cc) refl
      refl refl sample_reads put_info_run refl
