-- ===== src/Bundle/Refused.antt =====
-- internal/hp/bundle.go: what UnpackCache leaves behind when it refuses a bundle.
use fasthack.Prelude.{◌≡◌, ◌≢◌, false, Option, none, some, List, ◌++◌, map, All}
use fasthack.Bundle.{Codec, Entry, Cache}
use fasthack.Bundle.Unpack.{read_entry, on_entries, unpack_cache}
use fasthack.Bundle.Addressed.{IsAddressed, unpack_cache_refused}
use fasthack.Bundle.Stored.{HasBlob, IsRead, all-HasBlob, close_unpack-all-HasBlob}

-- A bundle that is refused adds no record, for the log file is as it was, but it is not without
-- effect: the blobs with which it begins, regular entries named by their digests, are installed and
-- stay there. Each blob in the cache still has the digest that it is filed under, if those that
-- were there before had.
pub unpack_cache_refused_stored :
    (codec : Codec) (bs : List Entry) (rest : List (Option Entry)) (cache : Cache)
    → IsAddressed codec.digest cache.blobs
    → All (IsRead codec) bs
    → (unpack_cache codec false (map some bs ++ rest) cache).failure ≢ none
    → ((unpack_cache codec false (map some bs ++ rest) cache).cache.log ≡ cache.log)
      × IsAddressed codec.digest (unpack_cache codec false (map some bs ++ rest) cache).cache.blobs
      × All
          (λ e.
            HasBlob
              (codec.digest (read_entry e))
              (unpack_cache codec false (map some bs ++ rest) cache).cache.blobs)
          bs
unfolding unpack_cache
unpack_cache_refused_stored codec bs rest cache i read h =
    let es = map some bs ++ rest in
    let (log, addressed) = unpack_cache_refused codec false es cache i h in
    (
      log,
      addressed,
      close_unpack-all-HasBlob codec false cache.log (on_entries codec false es _) bs
          (all-HasBlob codec bs rest _ read),
    )
