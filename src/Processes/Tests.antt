-- ===== src/Processes/Tests.antt =====
-- A snapshot of five processes: idle, System, one of the user, one of the system's, and the program.
use scrambler.Prelude.{
  ℕ, ◌≡◌, ◌⊎◌, refl, Bool, true, false, some, List, [], ◌∷◌, ◌++◌, map, length, take, ◌==◌,
  if◌then◌else◌, filter, All, arith,
}
use scrambler.Processes.{
  ProcessInfo, ProcessEntry, Answers, Windows, system32, is_process_identity_current,
  enumerate_processes,
}
use scrambler.Processes.Offered.{IsListed, IsComparison, is_offered, identity_of, enumerated_pids}

-- Whether two lists of units are the same.
abbrev same_units : List ℕ → List ℕ → Bool
same_units [] [] = true
same_units (x ∷ xs) (y ∷ ys) = if x == y then same_units xs ys else false
same_units _ _ = false

abbrev windows_path : List ℕ
windows_path = 67 ∷ 58 ∷ []

abbrev answers_at : List ℕ → Answers
answers_at path = record {
  opens = true;
  image_name = some path;
  created = some (record { low = 7; high = 1 });
  session_id = some 1;
}

abbrev win : Windows
win = record {
  wcsnicmp = λ n s t. same_units (take n s) (take n t);
  utf8 = λ s. some s;
  windows_directory = windows_path;
  current_process_id = 30;
  ask = λ pid. if pid == 20 then answers_at (windows_path ++ system32) else answers_at (68 ∷ []);
}

abbrev entry : ℕ → ProcessEntry
entry pid = record { process_id = pid; parent_process_id = 4; exe_file = 97 ∷ [] }

abbrev entries : List ProcessEntry
entries = entry 0 ∷ entry 4 ∷ entry 10 ∷ entry 20 ∷ entry 30 ∷ []

only_ten : map (λ (p : ProcessInfo). p.pid) (enumerate_processes win (some entries)) ≡ 10 ∷ []
unfolding enumerate_processes
only_ten = refl

same_units-take : (s : List ℕ) → same_units (take (length s) s) (take (length s) s) ≡ true
same_units-take [] = refl
same_units-take (x ∷ xs) = let same : (x == x) ≡ true = ground arith in rw same (same_units-take xs)

win-IsComparison : IsComparison win
win-IsComparison = record { same = same_units-take }

enumerated_pids_example :
    let processes = enumerate_processes win (some entries) in
    (map (λ (p : ProcessInfo). p.pid) processes
      ≡ filter (is_offered win) (map (λ (x : ProcessEntry). x.process_id) entries))
    × All (IsListed win) processes
    × All
        (λ p. (p.creation_time ≡ 0) ⊎ (is_process_identity_current win (identity_of p) ≡ true))
        processes
enumerated_pids_example = enumerated_pids win win-IsComparison entries
