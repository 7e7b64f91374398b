-- ===== src/Narinfo/Sanitize.antt =====
-- `SanitizeNar`: point a narinfo to the uncompressed archive. The proofs are in the module below.
pub mod Keeps
use spongix.Base.{Bool, Bytes, codes, if◌then◌else◌}
use spongix.Strings.{equal, ext, without_end}
use spongix.Narinfo.{Narinfo}

unfoldable pub sanitize_nar : Narinfo → Narinfo
unfolding equal ext without_end
sanitize_nar info = if equal info.compression (codes "none") then info else record info {
  file_hash = info.nar_hash;
  file_size = info.nar_size;
  compression = codes "none";
  url = without_end info.url (ext info.url);
}
