-- ===== src/Tests/IndexServerTests.antt =====
-- A catalog served in the first minute of 1970, and asked for again two seconds later.
use stanchion.Prelude.{
  ◌⊎◌, ◌≢◌, trim, split, ℕ, ◌+◌, ◌*◌, ◌≤◌, ◌<◌, Bool, false, not, ◌&&◌, ◌≡◌, refl, sym, ◌∙◌, Option,
  none, some, [], ◌∷◌, ◌++◌, arith, ◌==◌, if◌then◌else◌, is_some, is_empty, Outcome, ok, err, Text,
  codes, text_eq,
}
use stanchion.Signature.{Bytes}
use stanchion.Index.{unknown_plugin, transport, Freshness, required, check_at}
use stanchion.IndexServer.{
  window_end, ttl_seconds, dated_catalog, document, serve_catalog, trim_slashes, answer,
  apply_conditional, second, max_instant, get_method, bytes, max_age, Document, of_catalog,
  of_releases, IndexSource, Rendering, etag_of, window_start, serve_at, OpenError, absent,
  open_blob,
}
use stanchion.IndexServer.Answers.{expires_of}
use stanchion.IndexServer.Conditional.{IsInverse, serve_at-fresh}
use stanchion.IndexServer.Revalidation.{IsReadable, serve_at-not_modified}
use stanchion.IndexServer.Repeating.{IsLike, serve_at_again}
use stanchion.IndexServer.Discretion.{discreet, serve_at-discreet}
use stanchion.IndexServer.Blobs.{open_blob-confined}

abbrev minute : ℕ
minute = 60 * second

abbrev noon : ℕ
noon = 5 * second

abbrev moments_later : ℕ
moments_later = 7 * second

-- a toy format of instants, with the first one blank
abbrev format : ℕ → Text
format instant = if instant == 0 then [] else instant ∷ []

abbrev parse_time : Text → Option ℕ
parse_time [] = some 0
parse_time (c ∷ t) = some c

abbrev is_blank : Option Text → Bool
is_blank none = false
is_blank (some t) = is_empty t

-- a toy JSON that has room for the deadline only
abbrev render : Document → Option Bytes
render (of_releases releases) = none
render (of_catalog catalog) =
    if catalog.schema == 1
      && (not (is_some catalog.name) && (is_blank catalog.updated && is_empty catalog.plugins))
    then catalog.expires
    else none

abbrev body : Bytes
body = minute ∷ []

-- a toy hash that knows one body
abbrev rendering : Rendering
rendering = record {
  render = render;
  render_error = λ message. message;
  format = format;
  sha256 = λ b. if text_eq b body then 1 ∷ [] else 0 ∷ [];
}

abbrev source : IndexSource
source = record {
  releases = λ name. err (transport (codes "/srv/index: denied"));
  catalog = ok (record { schema = 0; name = none; updated = none; expires = none; plugins = [] });
  blob = λ digest. err (unknown_plugin digest);
}

abbrev path : Text
path = codes "/v1/index.json"

rendering-IsInverse : IsInverse rendering parse_time
rendering-IsInverse instant h = ground arith

catalog_aged :
    (serve_at rendering source minute get_method path none noon).cache_control ≡ max_age 55
unfolding serve_at apply_conditional answer text_eq trim_slashes serve_catalog document
    dated_catalog is_empty window_start ttl_seconds
catalog_aged = refl

catalog_body : (serve_at rendering source minute get_method path none noon).body ≡ bytes body
unfolding serve_at apply_conditional answer text_eq trim_slashes serve_catalog document
    dated_catalog is_empty window_start ttl_seconds window_end
catalog_body = refl

catalog_tag :
    (serve_at rendering source minute get_method path none noon).etag ≡ some (codes "\"01\"")
unfolding serve_at apply_conditional answer text_eq trim_slashes serve_catalog document
    dated_catalog is_empty window_start ttl_seconds window_end
catalog_tag = refl

catalog_kept :
    (serve_at rendering source minute get_method path (some (codes "\"01\"")) moments_later).status
    ≡ 304
unfolding serve_at apply_conditional answer text_eq trim_slashes serve_catalog document
    dated_catalog is_empty window_start ttl_seconds split trim window_end
catalog_kept = refl

-- `*` keeps whatever the client has, in any later window too.
star_kept :
    (serve_at
      (record rendering { render = λ content. some [] })
      source
      minute
      get_method
      path
      (some (codes "*"))
      (500 * second)).status
    ≡ 304
unfolding serve_at apply_conditional answer text_eq trim_slashes serve_catalog document
    dated_catalog is_empty window_start ttl_seconds
star_kept = refl

abbrev FreshResult : Type 0
FreshResult =
    (content : Document) × (b : Bytes) × (expires : Text) × (deadline : ℕ) × (render content
      ≡ some b)
    × ((serve_at rendering source minute get_method path none noon).body ≡ bytes b)
    × ((serve_at rendering source minute get_method path none noon).status ≡ 200)
    × (0 < 55)
    × (expires_of content ≡ some expires)
    × (parse_time expires ≡ some deadline)
    × (deadline < noon + 55 * second + second)
    × ((deadline ≡ max_instant) ⊎ (noon + 55 * second < deadline + second))
    × ((freshness : Freshness) (what : Text) (later : ℕ)
        → later ≤ max_instant
        → later + second ≤ noon + 55 * second
        → check_at parse_time freshness (expires_of content) what later ≡ ok tt)

serve_at-fresh_example : FreshResult
serve_at-fresh_example =
    serve_at-fresh rendering parse_time rendering-IsInverse minute (omega arith) source path noon
      catalog_aged

render-expires : (one : Document) (b : Bytes) → render one ≡ some b → expires_of one ≡ some b
render-expires (of_releases releases) b h = absurd (ground arith)
render-expires (of_catalog catalog) b h = ground arith

rendering-IsReadable : IsReadable rendering
rendering-IsReadable one two b h k = render-expires one b h ∙ sym (render-expires two b k)

abbrev served_catalog : Document
served_catalog =
    of_catalog
      (record { schema = 1; name = none; updated = some []; expires = some body; plugins = [] })

served_catalog_rendered : render served_catalog ≡ some body
unfolding is_empty
served_catalog_rendered = refl

serve_at-not_modified_example :
    (check_at parse_time required (some body) (codes "the catalog") moments_later ≡ ok tt)
    ⊎ ((other : Bytes) × ((serve_at rendering source minute get_method path none moments_later).body
          ≡ bytes other)
        × (other ≢ body)
        × (etag_of rendering other ≡ etag_of rendering body))
serve_at-not_modified_example =
    serve_at-not_modified rendering parse_time rendering-IsInverse minute (omega arith) source
      source path noon moments_later catalog_aged catalog_body catalog_tag rendering-IsReadable
      (omega arith) catalog_kept served_catalog served_catalog_rendered required
      (codes "the catalog")

one_window : window_start minute noon ≡ window_start minute moments_later
unfolding window_start ttl_seconds
one_window = refl

serve_at_again_example :
    ((serve_at rendering source minute get_method path (some (codes "\"01\"")) moments_later).status
      ≡ 304)
    × ((serve_at rendering source minute get_method path (some (codes "\"01\"")) moments_later).body
        ≡ bytes [])
    × IsLike
        (serve_at rendering source minute get_method path none moments_later)
        (serve_at rendering source minute get_method path none noon)
serve_at_again_example =
    serve_at_again rendering minute noon moments_later one_window source path catalog_aged
      catalog_tag

serve_at-discreet_example :
    serve_at rendering
      (discreet source)
      minute
      get_method
      (codes "/v1/plugins/clock.json")
      none
      noon
    ≡ serve_at rendering source minute get_method (codes "/v1/plugins/clock.json") none noon
serve_at-discreet_example =
    serve_at-discreet rendering source minute noon get_method (codes "/v1/plugins/clock.json") none

abbrev nothing : Text → Outcome OpenError (Bytes × Option ℕ)
nothing file = err absent

-- a file system with a secret outside the directory of packages
abbrev secretive : Text → Outcome OpenError (Bytes × Option ℕ)
secretive file = if text_eq file (codes "etc/passwd") then ok (1 ∷ [], none) else err absent

secret_apart :
    (name : Text)
    → nothing (codes "blobs/sha256/" ++ name) ≡ secretive (codes "blobs/sha256/" ++ name)
unfolding text_eq
secret_apart name = refl

open_blob-confined_example :
    open_blob nothing (codes "sha256:../../etc/passwd")
    ≡ open_blob secretive (codes "sha256:../../etc/passwd")
open_blob-confined_example =
    open_blob-confined nothing secretive (codes "sha256:../../etc/passwd")
      (λ name h. secret_apart name)
