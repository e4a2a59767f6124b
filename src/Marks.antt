-- ===== src/Marks.antt =====
-- The loops over an array of covered offsets that new_src/gap_target.c, new_src/covering.c and
-- new_src/crt_set.c share. A byte of such an array is 0 or 1, a Bool here.
pub mod Loops
pub mod Balance
use gap_miner_v.Prelude.{
  ℕ, zero, suc, ◌+◌, ◌-◌, ◌%◌, Bool, true, false, ◌&&◌, List, [], ◌∷◌, ltb, leb, ◌==◌, u64, get_or,
  set, if◌then◌else◌,
}

-- `for (; j < n; j += p) covered[j] = 1`, with fuel.
unfoldable pub mark_from : ℕ → ℕ → ℕ → ℕ → List Bool → List Bool
mark_from zero p j n covered = covered
mark_from (suc fuel) p j n covered =
    let rest = mark_from fuel p (u64 (j + p)) n (set covered j true) in
    if ltb j n then rest else covered

-- `for (; j < n; j += p) if (!covered[j]) c++`, with fuel.
unfoldable pub count_from : ℕ → ℕ → ℕ → ℕ → List Bool → ℕ → ℕ
count_from zero p j n covered c = c
count_from (suc fuel) p j n covered c =
    let rest =
      count_from fuel p (u64 (j + p)) n covered (if get_or covered j false then c else c + 1) in
    if ltb j n then rest else c

-- `for (; j < n; j++) if (!covered[j]) s++`, with `left` rounds to go.
unfoldable pub count_free : ℕ → ℕ → List Bool → ℕ → ℕ
count_free zero j covered s = s
count_free (suc left) j covered s =
    count_free left (j + 1) covered (if get_or covered j false then s else s + 1)

-- `for (; j < n; j++) if (!covered[j]) out[k++] = j`.
unfoldable pub list_free : ℕ → ℕ → List Bool → List ℕ
list_free zero j covered = []
list_free (suc left) j covered =
    let rest = list_free left (j + 1) covered in if get_or covered j false then rest else j ∷ rest

-- The offsets that `mark_from` reaches: `j`, `j + p`, … below `n`.
abbrev pub hits : ℕ → ℕ → ℕ → ℕ → Bool
hits p j n i = leb j i && ltb i n && ((i - j) % p == 0)
