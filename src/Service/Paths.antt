-- ===== src/Service/Paths.antt =====
-- server/win32/service.cpp: the paths that the service makes, in buffers of `MAX_PATH` characters with the zero
-- at their end. `PathCchRemoveFileSpec`, which cuts a path at its last component, is a parameter.
use monidroid.Base.{
  ℕ, zero, suc, sym, ◌+◌, ◌-◌, ◌<◌, ◌≤◌, ◌≡◌, refl, arith, Option, none, some, List, [], ◌∷◌, ◌++◌,
  take, length, length-append, ltb, if◌then◌else◌, Bool-cases, inl, inr,
}

abbrev pub max_path : ℕ
max_path = 260

-- `wcscpy_s` to an empty buffer; `none` where the text does not fit, which ends the process.
unfoldable pub copy_text : ℕ → List ℕ → Option (List ℕ)
copy_text size text = if ltb (length text) size then some text else none

-- `JoinMdPath`; `GetModuleFileNameW` cuts the name of the program to the buffer.
unfoldable pub join_md_path : (List ℕ → List ℕ) → ℕ → List ℕ → List ℕ → Option (List ℕ)
unfolding copy_text
join_md_path remove_file_spec size program path =
    copy_text size (remove_file_spec (take (size - 1) program) ++ (b'\\' ∷ path))

-- `wmain`: the log file that the only argument names.
unfoldable pub logfile_of : List (List ℕ) → Option (List ℕ)
unfolding copy_text
logfile_of (name ∷ arg ∷ []) = copy_text max_path arg
logfile_of args = some []

-- The log file of `LaunchServerInSession`.
unfoldable pub log_path : (List ℕ → List ℕ) → List ℕ → List ℕ → List ℕ → Option (List ℕ)
unfolding join_md_path copy_text
log_path remove_file_spec program server_log [] =
    join_md_path remove_file_spec max_path program server_log
log_path remove_file_spec program server_log (x ∷ xs) = copy_text max_path (x ∷ xs)

copied : (size : ℕ) (text : List ℕ) → length text < size → copy_text size text ≡ some text
unfolding copy_text
copied size text h = ground arith

-- An argument that the service could keep is the path of the log file: the second copy fits when the first has.
log_path-logfile_of :
    (remove_file_spec : List ℕ → List ℕ) (program server_log name l : List ℕ) (x : ℕ) (xs : List ℕ)
    → logfile_of (name ∷ (x ∷ xs) ∷ []) ≡ some l
    → log_path remove_file_spec program server_log l ≡ some (x ∷ xs)
unfolding logfile_of copy_text log_path
log_path-logfile_of remove_file_spec program server_log name l x xs e =
    elim (Bool-cases (ltb (length (x ∷ xs)) max_path)) [
      | inl h ↦ rw (sym (the_text (x ∷ xs) l (rw h at e))) (rw h refl)
      | inr h ↦ absurd (nothing (rw h at e))
    ]
  where
    the_text : (a b : List ℕ) → ◌≡◌ {A = Option (List ℕ)} (some a) (some b) → a ≡ b
    the_text a b e = cc e

    nothing : ◌≡◌ {A = Option (List ℕ)} none (some l) → ⊥
    nothing e = cc e

length-take_le : (n : ℕ) (xs : List ℕ) → length (take n xs) ≤ length xs
length-take_le zero xs = omega arith
length-take_le (suc n) [] = omega arith
length-take_le (suc n) (x ∷ xs) = omega (arith, length-take_le n xs)

-- Without one it is that of the program's directory, where the paths are short enough.
log_path-short :
    (remove_file_spec : List ℕ → List ℕ) (program server_log : List ℕ)
    → ((path : List ℕ) → length (remove_file_spec path) ≤ length path)
    → length program + length server_log + 1 < max_path
    → log_path remove_file_spec program server_log []
      ≡ some (remove_file_spec (take 259 program) ++ (b'\\' ∷ server_log))
unfolding log_path join_md_path
log_path-short r program server_log shrinks h =
    copied max_path (r (take 259 program) ++ (b'\\' ∷ server_log)) (
      omega (
        arith,
        h,
        shrinks (take 259 program),
        length-take_le 259 program,
        length-append (r (take 259 program)) (b'\\' ∷ server_log),
      ))
