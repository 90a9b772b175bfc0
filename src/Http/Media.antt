-- ===== src/Http/Media.antt =====
-- Media types and the shape of paths, in crates/canopee-runtime/src/http.rs.
use canopee.Prelude.{
  Text, Bool, ◌||◌, same, starts_with, codes, contains, if◌then◌else◌, List, [], ◌∷◌,
}
use canopee.Prelude.Words.{after_last}

unfoldable pub is_compressible : Text → Bool
is_compressible content_type =
    same content_type (codes "application/javascript")
    || same content_type (codes "application/json")
    || same content_type (codes "image/svg+xml")
    || starts_with content_type (codes "text/")

-- The extensions, each with its media type.
abbrev media_types : List (Text × Text)
media_types =
    (codes "html", codes "text/html; charset=utf-8")
    ∷ (codes "htm", codes "text/html; charset=utf-8")
    ∷ (codes "css", codes "text/css")
    ∷ (codes "js", codes "application/javascript")
    ∷ (codes "mjs", codes "application/javascript")
    ∷ (codes "json", codes "application/json")
    ∷ (codes "map", codes "application/json")
    ∷ (codes "txt", codes "text/plain; charset=utf-8")
    ∷ (codes "xml", codes "application/xml")
    ∷ (codes "wasm", codes "application/wasm")
    ∷ (codes "png", codes "image/png")
    ∷ (codes "jpg", codes "image/jpeg")
    ∷ (codes "jpeg", codes "image/jpeg")
    ∷ (codes "gif", codes "image/gif")
    ∷ (codes "webp", codes "image/webp")
    ∷ (codes "avif", codes "image/avif")
    ∷ (codes "svg", codes "image/svg+xml")
    ∷ (codes "ico", codes "image/x-icon")
    ∷ (codes "woff", codes "font/woff")
    ∷ (codes "woff2", codes "font/woff2")
    ∷ (codes "ttf", codes "font/ttf")
    ∷ (codes "otf", codes "font/otf")
    ∷ (codes "eot", codes "application/vnd.ms-fontobject")
    ∷ (codes "mp4", codes "video/mp4")
    ∷ (codes "webm", codes "video/webm")
    ∷ (codes "mp3", codes "audio/mpeg")
    ∷ []

unfoldable pub type_of_extension : Text → List (Text × Text) → Text
type_of_extension ext [] = codes "application/octet-stream"
type_of_extension ext ((e, t) ∷ rest) = if same ext e then t else type_of_extension ext rest

unfoldable pub guess_content_type : Text → Text
guess_content_type path =
    let name = if same path (codes "/") then codes "index.html" else path in
    type_of_extension (after_last b'.' name) media_types

-- A path that asks for a file has a dot in its last segment.
unfoldable pub is_asset_request : Text → Bool
is_asset_request path = contains b'.' (after_last b'/' path)
