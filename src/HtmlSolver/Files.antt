-- ===== src/HtmlSolver/Files.antt =====
-- utils/html-solver, `serve_file`: which files it gives away.
use Prim.Native.String.{String, len, ◌++◌}
use text.Mathlib.TextPositions.{get?-append_middle, len-append}
use text.Mathlib.TextEquality.{eq_iff}
use text.Mathlib.TextLemmas.{append-nil, append_cancel_left}
use text.Mathlib.Text.{◌==◌ as str_eq, get?}
use mathlib.Core.Path.{subst}
use faucet_api.Common.{
  ◌+◌, Bool-cases, ◌≢◌, ◌≡◌, ◌⊎◌, inl, inr, ℕ, List, some, Result, ok, err, Result-cases, arith,
}
use faucet_api.HtmlSolver.{found, not_found, extension, mime_type, file_path, serve_file}

file_path-slash : (file : String) → file ≢ "" → file_path ("/" ++ file) ≡ some file
unfolding file_path
file_path-slash file h =
    let cut : get? ("/" ++ file) 1 (len ("/" ++ file)) ≡ some file = rw (len-append "/" file) (
      subst (λ t. get? ("/" ++ t) 1 (len "/" + len file) ≡ some file) (append-nil file)
        (get?-append_middle "/" file "")) in
    elim (Bool-cases (str_eq ("/" ++ file) "/")) [
      | inl p ↦ absurd (h (append_cancel_left "/" file "" ((eq_iff ("/" ++ file) "/").0 p)))
      | inr p ↦ rw p cut
    ]

-- Whatever file can be read is served: a request for `/` and a path that is not empty is answered with the
-- contents that the file system gives for that path, be it absolute or above the directory, under a type
-- that depends on the extension alone; and with 404 if it gives an error.
pub serve_file-slash :
    (fs_read : String → Result (List ℕ) (Unit {0})) (file : String)
    → file ≢ ""
    → ((contents : List ℕ) × (fs_read file ≡ ok contents)
        × (serve_file fs_read ("/" ++ file) ≡ some (found (mime_type (extension file)) contents)))
      ⊎ ((fs_read file ≡ err tt)
          × (serve_file fs_read ("/" ++ file) ≡ some (not_found "404 Not Found\n")))
unfolding serve_file
serve_file-slash fs_read file h =
    let path = file_path-slash file h in
    elim (Result-cases (fs_read file)) [
      | inl (contents, p) ↦ inl (contents, p, ground arith)
      | inr (_, p) ↦ inr (p, ground arith)
    ]
