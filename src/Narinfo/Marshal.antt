-- ===== src/Narinfo/Marshal.antt =====
-- `Marshal`: the text form.
use spongix.Base.{List, [], ◌∷◌, ◌++◌, Bytes, codes, newline, null, if◌then◌else◌}
use spongix.Strings.{join}
use spongix.Decimal.{format_int}
use spongix.Narinfo.{Narinfo, Key, key_name}

-- `write`: a line of the output.
unfoldable pub write : Key → Bytes → Bytes
write key value = key_name key ++ codes ": " ++ value ++ newline ∷ []

unfoldable pub write_sigs : List Bytes → Bytes
unfolding write
write_sigs [] = []
write_sigs (s ∷ sigs) = write Key.sig s ++ write_sigs sigs

-- A buffer takes every write, so no error is returned.
unfoldable pub marshal : Narinfo → Bytes
unfolding write write_sigs join format_int
marshal info =
    write Key.store_path info.store_path
    ++ (write Key.url info.url
        ++ (write Key.compression info.compression
            ++ (write Key.file_hash info.file_hash
                ++ (write Key.file_size (format_int info.file_size)
                    ++ (write Key.nar_hash info.nar_hash
                        ++ (write Key.nar_size (format_int info.nar_size)
                            ++ ((if null info.references
                                  then []
                                  else write Key.references (join (codes " ") info.references))
                                ++ ((if null info.deriver
                                      then []
                                      else write Key.deriver info.deriver)
                                    ++ write_sigs info.sig))))))))
