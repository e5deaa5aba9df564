-- ===== src/Core/Mime/Table.antt =====
-- core/mime.hpp: the table of `mime_type_for`, sorted by extension.
use boost_taar.Common.{[], ◌∷◌, Bytes, codes}
use boost_taar.Core.Mime.{Rows, mime_type_in}

abbrev pub mime_table : Rows
mime_table =
    (codes "7z", codes "application/x-7z-compressed")
    ∷ (codes "aac", codes "audio/aac")
    ∷ (codes "appcache", codes "text/cache-manifest")
    ∷ (codes "avi", codes "video/x-msvideo")
    ∷ (codes "avif", codes "image/avif")
    ∷ (codes "bmp", codes "image/bmp")
    ∷ (codes "css", codes "text/css")
    ∷ (codes "csv", codes "text/csv")
    ∷ (codes "doc", codes "application/msword")
    ∷ (
      codes "docx",
      codes "application/vnd.openxmlformats-officedocument.wordprocessingml.document",
    )
    ∷ (codes "eot", codes "application/vnd.ms-fontobject")
    ∷ (codes "epub", codes "application/epub+zip")
    ∷ (codes "flac", codes "audio/flac")
    ∷ (codes "gif", codes "image/gif")
    ∷ (codes "gz", codes "application/gzip")
    ∷ (codes "htm", codes "text/html")
    ∷ (codes "html", codes "text/html")
    ∷ (codes "ico", codes "image/vnd.microsoft.icon")
    ∷ (codes "ics", codes "text/calendar")
    ∷ (codes "jar", codes "application/java-archive")
    ∷ (codes "jpeg", codes "image/jpeg")
    ∷ (codes "jpg", codes "image/jpeg")
    ∷ (codes "js", codes "text/javascript")
    ∷ (codes "json", codes "application/json")
    ∷ (codes "jsonld", codes "application/ld+json")
    ∷ (codes "m4a", codes "audio/mp4")
    ∷ (codes "m4v", codes "video/mp4")
    ∷ (codes "manifest", codes "text/cache-manifest")
    ∷ (codes "map", codes "application/json")
    ∷ (codes "md", codes "text/markdown")
    ∷ (codes "mjs", codes "text/javascript")
    ∷ (codes "mkv", codes "video/x-matroska")
    ∷ (codes "mov", codes "video/quicktime")
    ∷ (codes "mp3", codes "audio/mpeg")
    ∷ (codes "mp4", codes "video/mp4")
    ∷ (codes "mpeg", codes "video/mpeg")
    ∷ (codes "mpg", codes "video/mpeg")
    ∷ (codes "ods", codes "application/vnd.oasis.opendocument.spreadsheet")
    ∷ (codes "odt", codes "application/vnd.oasis.opendocument.text")
    ∷ (codes "oga", codes "audio/ogg")
    ∷ (codes "ogg", codes "audio/ogg")
    ∷ (codes "ogv", codes "video/ogg")
    ∷ (codes "opus", codes "audio/ogg")
    ∷ (codes "otf", codes "font/otf")
    ∷ (codes "pdf", codes "application/pdf")
    ∷ (codes "png", codes "image/png")
    ∷ (codes "ppt", codes "application/vnd.ms-powerpoint")
    ∷ (
      codes "pptx",
      codes "application/vnd.openxmlformats-officedocument.presentationml.presentation",
    )
    ∷ (codes "rar", codes "application/vnd.rar")
    ∷ (codes "rtf", codes "application/rtf")
    ∷ (codes "svg", codes "image/svg+xml")
    ∷ (codes "tar", codes "application/x-tar")
    ∷ (codes "tif", codes "image/tiff")
    ∷ (codes "tiff", codes "image/tiff")
    ∷ (codes "toml", codes "application/toml")
    ∷ (codes "ts", codes "video/mp2t")
    ∷ (codes "ttf", codes "font/ttf")
    ∷ (codes "txt", codes "text/plain")
    ∷ (codes "vcf", codes "text/vcard")
    ∷ (codes "vtt", codes "text/vtt")
    ∷ (codes "wasm", codes "application/wasm")
    ∷ (codes "wav", codes "audio/wav")
    ∷ (codes "weba", codes "audio/webm")
    ∷ (codes "webm", codes "video/webm")
    ∷ (codes "webmanifest", codes "application/manifest+json")
    ∷ (codes "webp", codes "image/webp")
    ∷ (codes "woff", codes "font/woff")
    ∷ (codes "woff2", codes "font/woff2")
    ∷ (codes "xhtml", codes "application/xhtml+xml")
    ∷ (codes "xls", codes "application/vnd.ms-excel")
    ∷ (codes "xlsx", codes "application/vnd.openxmlformats-officedocument.spreadsheetml.sheet")
    ∷ (codes "xml", codes "application/xml")
    ∷ (codes "yaml", codes "application/yaml")
    ∷ (codes "yml", codes "application/yaml")
    ∷ (codes "zip", codes "application/zip")
    ∷ (codes "zst", codes "application/zstd")
    ∷ []

unfoldable pub mime_type_for : Bytes → Bytes
mime_type_for filename = mime_type_in mime_table filename
