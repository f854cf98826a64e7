-- ===== src/HtmlSolver.antt =====
-- utils/html-solver: `serve_file` and the loop that accepts connections. The file system is a parameter, and
-- so are the connections; a panic is `none`. `Path::extension` is the standard library's.
pub mod Files
use Prim.Native.Char.{Char, code}
use Prim.Native.String.{String, len, [] as empty, ◌∷◌ as ◌:>◌}
use text.Mathlib.Text.{◌==◌ as str_eq, get?}
use faucet_api.Common.{
  ℕ, ◌||◌, Option, none, some, List, [], ◌∷◌, Result, ok, err, ◌==◌, if◌then◌else◌,
}

abbrev cons_first : Char → List String → List String
cons_first c [] = (c :> empty) ∷ []
cons_first c (part ∷ parts) = (c :> part) ∷ parts

-- The parts of a path between its slashes.
unfoldable split_slashes : String → List String
split_slashes empty = empty ∷ []
split_slashes (c :> s) =
    let parts = split_slashes s in if code c == 47 then empty ∷ parts else cons_first c parts

-- The last of them that `Path::components` keeps: it drops empty parts and dots.
unfoldable last_component : List String → Option String
last_component [] = none
last_component (part ∷ parts) = elim (last_component parts) [
  | some last ↦ some last
  | none ↦ if str_eq part "" || str_eq part "." then none else some part
]

-- What stands before and after the last dot.
unfoldable split_dot : String → Option (String × String)
split_dot empty = none
split_dot (c :> s) = elim (split_dot s) [
  | some (before, after) ↦ some (c :> before, after)
  | none ↦ if code c == 46 then some (empty, s) else none
]

-- `Path::extension`: that of the last component, unless it is `..` or its only dot is its first character.
unfoldable pub extension : String → Option String
unfolding split_slashes last_component split_dot
extension path = elim (last_component (split_slashes path)) [
  | none ↦ none
  | some file ↦ if str_eq file ".." then none else elim (split_dot file) [
    | none ↦ none
    | some (before, after) ↦ if str_eq before "" then none else some after
  ]
]

-- `Content-Type`
unfoldable pub mime_type : Option String → String
mime_type none = "application/octet-stream"
mime_type (some ext) =
    if str_eq ext "html"
    then "text/html"
    else if str_eq ext "js"
    then "application/javascript"
    else "application/octet-stream"

pub data Response : Type 0 where
  found : (content_type : String) → (contents : List ℕ) → Response
  not_found : (body : String) → Response

-- `&path[1..]` panics where this is `none`.
unfoldable pub file_path : String → Option String
file_path path = if str_eq path "/" then some "static/index.html" else get? path 1 (len path)

-- `serve_file`, by the path of the request; `fs_read` is what `fs::read` gives.
unfoldable pub serve_file : (String → Result (List ℕ) (Unit {0})) → String → Option Response
unfolding file_path extension mime_type
serve_file fs_read path = elim (file_path path) [
  | none ↦ none
  | some file ↦ elim (fs_read file) [
    | ok contents ↦ some (found (mime_type (extension file)) contents)
    | err _ ↦ some (not_found "404 Not Found\n")
  ]
]

-- The loop of `main`: a connection that was accepted is served in a task of its own, an error is skipped.
unfoldable pub accept_loop :
    {Stream Error : Type 0} → List (Result Stream Error) → List Stream → List Stream
accept_loop [] spawned = spawned
accept_loop (ok stream ∷ rs) spawned = accept_loop rs (stream ∷ spawned)
accept_loop (err e ∷ rs) spawned = accept_loop rs spawned
