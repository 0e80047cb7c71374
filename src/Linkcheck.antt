-- ===== src/Linkcheck.antt =====
-- tools/linkcheck/main.go: the lines that `linksIn` keeps, the stripping of inline code, the targets
-- and the test that a target exists. A line is its bytes. Files, `strings.TrimSpace`, the regular
-- expression, `url.PathUnescape` and the functions of path/filepath are arguments; the walk of `main`
-- is left out.
pub mod Fences
pub mod Spans
mod Tests
use go_handbook_for_software.Base.{
  ℕ, zero, suc, ◌+◌, Bool, true, false, not, ◌&&◌, ◌||◌, List, [], ◌∷◌, ◌++◌, Option, none, some,
  if◌then◌else◌, ◌==◌, length, take, drop, get_or,
}

abbrev pub Bytes : Type 0
Bytes = List ℕ

-- `strings.HasPrefix`, the line first
abbrev pub has_prefix : Bytes → Bytes → Bool
has_prefix l [] = true
has_prefix [] (p ∷ ps) = false
has_prefix (c ∷ l) (p ∷ ps) = let rest = has_prefix l ps in if c == p then rest else false

-- the two fences, of backquotes and of tildes
abbrev pub backquotes : Bytes
backquotes = 96 ∷ 96 ∷ 96 ∷ []

abbrev pub tildes : Bytes
tildes = 126 ∷ 126 ∷ 126 ∷ []

abbrev pub is_fence : Bytes → Bool
is_fence trimmed = has_prefix trimmed backquotes || has_prefix trimmed tildes

-- `strings.Repeat(string(trimmed[0]), 3)`
abbrev pub marker_of : Bytes → Bytes
marker_of trimmed = let c = get_or trimmed 0 0 in c ∷ c ∷ c ∷ []

-- the variables of the loop over the lines
pub record Reading : Type 0 where
  pub in_fence : Bool
  pub fence_marker : Bytes
  pub active : List Bytes

abbrev pub new_reading : Reading
new_reading = record { in_fence = false; fence_marker = []; active = [] }

module _ (trim_space : Bytes → Bytes) where
  -- a line that is a fence
  unfoldable pub at_fence : Bytes → Reading → Reading
  at_fence trimmed s =
      if not s.in_fence
      then record s { in_fence = true; fence_marker = marker_of trimmed }
      else if has_prefix trimmed s.fence_marker
      then record s { in_fence = false }
      else s

  -- one line
  unfoldable pub read_line : Bytes → Reading → Reading
  read_line line s =
      let trimmed = trim_space line in
      if is_fence trimmed
      then at_fence trimmed s
      else if s.in_fence
      then s
      else record s { active = s.active ++ line ∷ [] }

  -- the loop over the lines
  unfoldable pub read_lines : List Bytes → Reading → Reading
  read_lines [] s = s
  read_lines (line ∷ lines) s = read_lines lines (read_line line s)

-- the length of the run of backquotes at the front
abbrev pub ticks : Bytes → ℕ
ticks [] = 0
ticks (c ∷ l) = let rest = ticks l in if c == 96 then suc rest else 0

-- the variables of the loop over the bytes: what is before `j`, what is from `j` on, `open` and `b`
pub record Scan : Type 0 where
  pub seen : Bytes
  pub rest : Bytes
  pub open_run : ℕ
  pub b : Bytes

-- a run of backquotes
unfoldable pub at_run : ℕ → Scan → Scan
at_run run s = record {
  seen = s.seen ++ take run s.rest;
  rest = drop run s.rest;
  open_run = if s.open_run == 0 then run else if run == s.open_run then 0 else s.open_run;
  b = if s.open_run == 0 then s.seen else s.b;
}

-- a byte that is not a backquote
unfoldable pub at_byte : ℕ → Bytes → Scan → Scan
at_byte c cs s = record {
  seen = s.seen ++ c ∷ [];
  rest = cs;
  open_run = s.open_run;
  b = if s.open_run == 0 then s.b ++ c ∷ [] else s.b;
}

-- the loop over the bytes, on fuel
unfoldable pub scan_loop : ℕ → Scan → Scan
scan_loop zero s = s
scan_loop (suc fuel) s = elim s.rest [
  | [] ↦ s
  | c ∷ cs ↦ scan_loop fuel (if c == 96 then at_run (ticks (c ∷ cs)) s else at_byte c cs s)
]

-- a line with the open run before it: what is kept, and the open run after it
unfoldable pub strip_line : Bytes → ℕ → Bytes × ℕ
strip_line line open_run =
    let s =
      scan_loop (length line) (record { seen = []; rest = line; open_run = open_run; b = [] }) in
    (s.b, s.open_run)

-- `stripInlineCode` from an open run on
unfoldable pub strip_lines : List Bytes → ℕ → List Bytes
strip_lines [] open_run = []
strip_lines (line ∷ lines) open_run =
    let (kept, open_run') = strip_line line open_run in kept ∷ strip_lines lines open_run'

-- `stripInlineCode`
abbrev pub strip_inline_code : List Bytes → List Bytes
strip_inline_code lines = strip_lines lines 0

abbrev pub same : Bytes → Bytes → Bool
same [] [] = true
same [] (d ∷ ds) = false
same (c ∷ cs) [] = false
same (c ∷ cs) (d ∷ ds) = let rest = same cs ds in if c == d then rest else false

-- "http://", "https://" and "mailto:"
abbrev pub http : Bytes
http = 104 ∷ 116 ∷ 116 ∷ 112 ∷ 58 ∷ 47 ∷ 47 ∷ []

abbrev pub https : Bytes
https = 104 ∷ 116 ∷ 116 ∷ 112 ∷ 115 ∷ 58 ∷ 47 ∷ 47 ∷ []

abbrev pub mailto : Bytes
mailto = 109 ∷ 97 ∷ 105 ∷ 108 ∷ 116 ∷ 111 ∷ 58 ∷ []

-- `raw[:idx]` at the first '#'
unfoldable pub cut_anchor : Bytes → Bytes
cut_anchor [] = []
cut_anchor (c ∷ cs) = let rest = cut_anchor cs in if c == 35 then [] else c ∷ rest

-- the packages that `linksIn` and `linkResolves` call; `resolve` is `Clean(Join(Dir(source), target))`
pub record Files : Type 0 where
  pub trim_space : Bytes → Bytes
  pub find_links : Bytes → List Bytes
  pub unescape : Bytes → Option Bytes
  pub resolve : Bytes → Bytes → Bytes
  pub dir : Bytes → Bytes
  pub base : Bytes → Bytes
  pub read_dir : Bytes → Option (List Bytes)

module _ (files : Files) where
  -- the decoded target of a match
  unfoldable pub decoded : Bytes → Bytes
  decoded match_text =
      let raw = cut_anchor match_text in elim (files.unescape raw) [ none ↦ raw | some text ↦ text ]

  -- the loop over the matches of a line
  unfoldable pub targets_of : List Bytes → List Bytes
  targets_of [] = []
  targets_of (m ∷ ms) =
      let d = decoded m in
      let rest = targets_of ms in
      if length d == 0 || has_prefix d http || has_prefix d https || has_prefix d mailto
      then rest
      else d ∷ rest

  -- the loop over the stripped lines
  unfoldable pub targets_in : List Bytes → List Bytes
  targets_in [] = []
  targets_in (line ∷ lines) = targets_of (files.find_links line) ++ targets_in lines

  -- `linksIn` on the lines of a file
  unfoldable pub links_in : List Bytes → List Bytes
  links_in lines =
      targets_in (strip_inline_code (read_lines files.trim_space lines new_reading).active)

  -- the loop over the entries of the parent
  unfoldable pub listed : Bytes → List Bytes → Bool
  listed name [] = false
  listed name (e ∷ es) = let rest = listed name es in if same e name then true else rest

  -- `linkResolves`
  unfoldable pub link_resolves : Bytes → Bytes → Bool
  link_resolves source target =
      let resolved = files.resolve source target in
      elim (files.read_dir (files.dir resolved)) [
        | none ↦ false
        | some entries ↦ listed (files.base resolved) entries
      ]
