-- ===== src/Tests/Media.antt =====
-- Runs of core/mime.hpp, and an instance of its theorem.
use boost_taar.Common.{◌≡◌, refl, [], codes, if◌then◌else◌, is_empty, trim_end, cut, iequals}
use boost_taar.Core.Mime.{
  less, lower_bound, base_name, after_dot, file_extension, mime_type_in, is_text_mime_type,
  with_utf8_charset,
}
use boost_taar.Core.Mime.Table.{mime_table, mime_type_for}
use boost_taar.Core.Mime.LookUp.{type_of, mime_type_for_lem}

mime_runs :
    (mime_type_for (codes "a.b/Photo.tar.JPG") ≡ codes "image/jpeg")
    × (mime_type_for (codes "zip.zst") ≡ codes "application/zstd")
    × (mime_type_for (codes "a.b/.profile") ≡ [])
    × (mime_type_for (codes "x.unknown") ≡ [])
unfolding mime_type_for mime_type_in file_extension base_name after_dot lower_bound less
mime_runs = (refl, refl, refl, refl)

charset_runs :
    (with_utf8_charset (codes "Text/HTML") ≡ codes "Text/HTML; charset=utf-8")
    × (with_utf8_charset (codes "image/png") ≡ codes "image/png")
    × (with_utf8_charset (codes "text/html; x=y") ≡ codes "text/html; x=y")
unfolding with_utf8_charset is_text_mime_type trim_end cut iequals
charset_runs = (refl, refl, refl)

mime_type_for_lem_example : mime_type_for (codes "index.html") ≡ (
    if is_empty (file_extension (codes "index.html"))
    then []
    else type_of (file_extension (codes "index.html")) mime_table)
mime_type_for_lem_example = mime_type_for_lem (codes "index.html")
