-- ===== src/Narinfo/Storage.antt =====
-- `PrepareForStorage` and `ToReader`: what the cache writes of a narinfo that was uploaded.
pub mod Signed
pub mod Total
use spongix.Base.{Bytes, List, [], ◌∷◌, Option, none, some, null, if◌then◌else◌}
use spongix.Narinfo.{Narinfo}
use spongix.Narinfo.Marshal.{marshal}
use spongix.Narinfo.Sanitize.{sanitize_nar}
use spongix.Narinfo.Signatures.{Crypto, Keys, ◌>>=◌, sanitize_signatures, sign}

module _ (c : Crypto) where
  unfoldable pub sign_all : Keys → Narinfo → Option Narinfo
  unfolding sign
  sign_all [] info = some info
  sign_all ((name, key) ∷ keys) info = do signed ← sign c name key info; sign_all keys signed

  -- The record that is written.
  unfoldable pub prepared : Keys → Keys → Narinfo → Option Narinfo
  unfolding sanitize_nar sanitize_signatures sign_all
  prepared trusted secret info = do
    kept ← sanitize_signatures c trusted (sanitize_nar info)
    if null kept.sig then sign_all secret kept else some kept

  -- Its text; `ToReader` returns no error.
  unfoldable pub prepare_for_storage : Keys → Keys → Narinfo → Option Bytes
  unfolding prepared marshal
  prepare_for_storage trusted secret info = do
    result ← prepared trusted secret info
    some (marshal result)
