-- ===== src/Processes.antt =====
-- src/platform/ProcessEnumerator.cpp: who a process is, and which processes are offered. A wide
-- string is its list of code units. What Windows answers is a parameter.
use scrambler.Prelude.{
  ℕ, ◌*◌, ◌%◌, ◌^◌, Bool, true, false, not, ◌&&◌, ◌||◌, Option, none, some, List, [], ◌∷◌, ◌++◌,
  foldl, length, ltb, ◌==◌, bit_or, if◌then◌else◌,
}
use scrambler.Types.{system_pid}
pub mod Offered
mod Tests

pub record ProcessIdentity : Type 0 where
  pub pid : ℕ
  pub creation_time : ℕ
  pub exe_path : List ℕ

abbrev pub is_empty : List ℕ → Bool
is_empty [] = true
is_empty (c ∷ cs) = false

abbrev pub is_valid : ProcessIdentity → Bool
is_valid i = not (i.pid == 0) && (not (i.creation_time == 0) && not (is_empty i.exe_path))

pub record ProcessInfo : Type 0 where
  pub pid : ℕ
  pub parent_pid : ℕ
  pub name : List ℕ
  pub exe_path : List ℕ
  pub creation_time : ℕ

pub data ProcessIdentityError : Type 0 where
  open_failed image_path_unavailable creation_time_unavailable : ProcessIdentityError

-- A result of `std::expected`.
pub data Identified : Type 0 where
  unexpected : ProcessIdentityError → Identified
  identified : ProcessIdentity → Identified

pub record FileTime : Type 0 where
  pub low : ℕ
  pub high : ℕ

-- What Windows answers about the process that has a pid; `none` where a call fails.
pub record Answers : Type 0 where
  pub opens : Bool
  pub image_name : Option (List ℕ)
  pub created : Option FileTime
  pub session_id : Option ℕ

-- An entry of the snapshot of all processes.
pub record ProcessEntry : Type 0 where
  pub process_id : ℕ
  pub parent_process_id : ℕ
  pub exe_file : List ℕ

-- `wcsnicmp n s t` says if _wcsnicmp on `n` units of `s` and `t` is 0, `utf8` is the conversion of
-- WideCharToMultiByte.
pub record Windows : Type 0 where
  pub wcsnicmp : ℕ → List ℕ → List ℕ → Bool
  pub utf8 : List ℕ → Option (List ℕ)
  pub windows_directory : List ℕ
  pub current_process_id : ℕ
  pub ask : ℕ → Answers

abbrev pub system32 : List ℕ
system32 = 92 ∷ 83 ∷ 121 ∷ 115 ∷ 116 ∷ 101 ∷ 109 ∷ 51 ∷ 50 ∷ []

abbrev pub sys_wow64 : List ℕ
sys_wow64 = 92 ∷ 83 ∷ 121 ∷ 115 ∷ 87 ∷ 79 ∷ 87 ∷ 54 ∷ 52 ∷ []

abbrev pub system_apps : List ℕ
system_apps = 92 ∷ 83 ∷ 121 ∷ 115 ∷ 116 ∷ 101 ∷ 109 ∷ 65 ∷ 112 ∷ 112 ∷ 115 ∷ []

abbrev pub win_sxs : List ℕ
win_sxs = 92 ∷ 87 ∷ 105 ∷ 110 ∷ 83 ∷ 120 ∷ 83 ∷ []

unfoldable pub file_time_to_uint64 : FileTime → ℕ
file_time_to_uint64 time = bit_or (time.high * 2 ^ 32 % 2 ^ 64) time.low

module _ (win : Windows) where
  unfoldable pub is_session_zero : ℕ → Bool
  is_session_zero pid = elim (win.ask pid).session_id [ none ↦ false | some id ↦ id == 0 ]

  unfoldable pub equals_insensitive : List ℕ → List ℕ → Bool
  equals_insensitive lhs rhs =
      if not (length lhs == length rhs) then false else win.wcsnicmp (length lhs) lhs rhs

  unfoldable pub wide_to_utf8 : List ℕ → List ℕ
  wide_to_utf8 value =
      if is_empty value then [] else elim (win.utf8 value) [ none ↦ [] | some text ↦ text ]

  unfoldable pub read_process_identity : Answers → ℕ → Identified
  unfolding file_time_to_uint64
  read_process_identity process pid = elim process.image_name [
    | none ↦ unexpected ProcessIdentityError.image_path_unavailable
    | some path ↦
        if is_empty path
        then unexpected ProcessIdentityError.image_path_unavailable
        else elim process.created [
          | none ↦ unexpected ProcessIdentityError.creation_time_unavailable
          | some time ↦
              identified
                (record { pid = pid; creation_time = file_time_to_uint64 time; exe_path = path })
        ]
  ]

  unfoldable pub starts_with_insensitive : (str prefix : List ℕ) → Bool
  starts_with_insensitive str prefix =
      if ltb (length str) (length prefix) then false else win.wcsnicmp (length prefix) str prefix

  unfoldable pub is_system_process_path : List ℕ → Bool
  unfolding starts_with_insensitive
  is_system_process_path path =
      if is_empty path
      then true
      else let dir = win.windows_directory in
        starts_with_insensitive path (dir ++ system32)
        || (starts_with_insensitive path (dir ++ sys_wow64)
            || (starts_with_insensitive path (dir ++ system_apps)
                || starts_with_insensitive path (dir ++ win_sxs)))

  unfoldable pub get_process_identity : ℕ → Identified
  unfolding read_process_identity
  get_process_identity pid =
      if not (win.ask pid).opens
      then unexpected ProcessIdentityError.open_failed
      else read_process_identity (win.ask pid) pid

  abbrev pub agrees : ProcessIdentity → Identified → Bool
  unfolding equals_insensitive
  agrees identity (unexpected error) = false
  agrees identity (identified current) =
      current.creation_time == identity.creation_time
      && equals_insensitive current.exe_path identity.exe_path

  unfoldable pub is_process_identity_current : ProcessIdentity → Bool
  unfolding get_process_identity agrees
  is_process_identity_current identity =
      if not (is_valid identity) then false else agrees identity (get_process_identity identity.pid)

  abbrev pub info_of : ProcessEntry → ProcessIdentity → ProcessInfo
  info_of entry identity = record {
    pid = entry.process_id;
    parent_pid = entry.parent_process_id;
    name = wide_to_utf8 entry.exe_file;
    exe_path = identity.exe_path;
    creation_time = identity.creation_time;
  }

  -- What is put in the list for an entry that is not skipped.
  unfoldable pub offer_identified : ProcessEntry → List ProcessInfo → Identified → List ProcessInfo
  unfolding is_system_process_path is_session_zero
  offer_identified entry result (unexpected error) = result
  offer_identified entry result (identified identity) =
      if not (is_system_process_path identity.exe_path || is_session_zero entry.process_id)
      then result ++ info_of entry identity ∷ []
      else result

  -- A turn of the loop of `EnumerateProcesses`.
  unfoldable pub offer : List ProcessInfo → ProcessEntry → List ProcessInfo
  unfolding offer_identified get_process_identity
  offer result entry =
      let pid = entry.process_id in
      if not (pid == 0) && (not (pid == system_pid) && not (pid == win.current_process_id))
      then offer_identified entry result (get_process_identity pid)
      else result

  -- The snapshot is `none` if it fails.
  unfoldable pub enumerate_processes : Option (List ProcessEntry) → List ProcessInfo
  unfolding offer
  enumerate_processes none = []
  enumerate_processes (some entries) = foldl offer [] entries
