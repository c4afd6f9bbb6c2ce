-- ===== src/Processes/Offered.antt =====
-- Which processes are offered, and that a process that was offered is recognised.
use mathlib.Core.List.{append_assoc, append-nil, map-append}
use scrambler.Prelude.{
  ℕ, ◌≡◌, ◌≢◌, refl, sym, ◌∙◌, ap, inl, inr, ◌⊎◌, Bool, Bool-cases, true, false, not, ◌&&◌, ◌||◌,
  some, Option-cases, List, [], ◌∷◌, ◌++◌, map, foldl, length, ◌==◌, if◌then◌else◌, filter, All,
  All-append, All-weaken, arith,
}
use scrambler.Types.{system_pid}
use scrambler.Processes.{
  ProcessIdentity, ProcessInfo, ProcessEntry, Identified, unexpected, identified, Windows, is_empty,
  is_session_zero, equals_insensitive, is_system_process_path, read_process_identity,
  get_process_identity, agrees, is_process_identity_current, offer_identified, offer,
  enumerate_processes, info_of,
}

abbrev pub identity_of : ProcessInfo → ProcessIdentity
identity_of p = record { pid = p.pid; creation_time = p.creation_time; exe_path = p.exe_path }

not_skipped :
    (pid self : ℕ)
    → not (pid == 0 || (pid == system_pid || pid == self)) ≡ true
    → (pid ≢ 0) × (pid ≢ system_pid) × (pid ≢ self)
not_skipped pid self h = (ground arith, ground arith, ground arith)

skipped_test :
    (pid self : ℕ) (b : Bool)
    → (pid == 0 || (pid == system_pid || pid == self)) ≡ b
    → (not (pid == 0) && (not (pid == system_pid) && not (pid == self))) ≡ not b
skipped_test pid self b h = ground arith

filter-step :
    {A : Type 0} (p : A → Bool) (x : A) (before after : List A)
    → (before ++ (if p x then x ∷ [] else [])) ++ filter p after ≡ before ++ filter p (x ∷ after)
filter-step p x before after = elim (Bool-cases (p x)) [
  | inl kept ↦ rw kept (append_assoc before (x ∷ []) (filter p after))
  | inr left ↦ rw (left, append-nil before) refl
]

dated_or_not : (n : ℕ) → (n ≡ 0) ⊎ (n ≢ 0)
dated_or_not n = ground arith

module _ (win : Windows) where
  abbrev pub is_skipped : ℕ → Bool
  is_skipped pid = pid == 0 || (pid == system_pid || pid == win.current_process_id)

  -- A process that can be identified, outside the system's directories and sessions.
  abbrev pub is_user_process : ℕ → Identified → Bool
  is_user_process pid (unexpected error) = false
  is_user_process pid (identified i) =
      not (is_system_process_path win i.exe_path) && not (is_session_zero win pid)

  abbrev pub is_offered : ℕ → Bool
  is_offered pid = not (is_skipped pid) && is_user_process pid (get_process_identity win pid)

  -- What an entry of the list is.
  pub record IsListed (p : ProcessInfo) : Type 0 where
    pub not_idle : p.pid ≢ 0
    pub not_system : p.pid ≢ system_pid
    pub not_self : p.pid ≢ win.current_process_id
    pub user_path : is_system_process_path win p.exe_path ≡ false
    pub user_session : is_session_zero win p.pid ≡ false
    pub found : get_process_identity win p.pid ≡ identified (identity_of p)

  abbrev HasPid : ℕ → Identified → Type 0
  HasPid pid (unexpected error) = Unit
  HasPid pid (identified i) = i.pid ≡ pid

  get_process_identity-HasPid : (pid : ℕ) → HasPid pid (get_process_identity win pid)
  unfolding get_process_identity read_process_identity
  get_process_identity-HasPid pid = elim (Bool-cases (win.ask pid).opens) [
    | inr shut ↦ rw (shut, get_process_identity) tt
    | inl opened ↦ elim (Option-cases (win.ask pid).image_name) [
      | inl nameless ↦ rw (opened, nameless, get_process_identity, read_process_identity) tt
      | inr (path, named) ↦ elim (Bool-cases (is_empty path)) [
        | inl empty ↦ rw (opened, named, empty, get_process_identity, read_process_identity) tt
        | inr full ↦ elim (Option-cases (win.ask pid).created) [
          | inl timeless ↦
              rw (opened, named, full, timeless, get_process_identity, read_process_identity) tt
          | inr (time, dated) ↦
              rw (opened, named, full, dated, get_process_identity, read_process_identity) refl
        ]
      ]
    ]
  ]

  listed :
      (entry : ProcessEntry) (i : ProcessIdentity)
      → not (is_skipped entry.process_id) ≡ true
      → is_system_process_path win i.exe_path ≡ false
      → is_session_zero win entry.process_id ≡ false
      → get_process_identity win entry.process_id ≡ identified i
      → i.pid ≡ entry.process_id
      → IsListed (info_of win entry i)
  listed entry i e user session h has =
      let (idle, system, self) = not_skipped entry.process_id win.current_process_id e in
      record {
        not_idle = idle;
        not_system = system;
        not_self = self;
        user_path = user;
        user_session = session;
        found =
            h
            ∙ ap
                (λ n.
                  identified
                    (record { pid = n; creation_time = i.creation_time; exe_path = i.exe_path }))
                has;
      }

  -- What a turn adds to the list, if the entry is not skipped.
  record IsAdded (entry : ProcessEntry) (result added : List ProcessInfo) (user : Bool)
      : Type 0 where
    same_pids :
        map (λ (p : ProcessInfo). p.pid) added ≡ (if user then entry.process_id ∷ [] else [])
    only_user : (not (is_skipped entry.process_id) ≡ true) → All IsListed added

  offer_identified_lem :
      (entry : ProcessEntry) (result : List ProcessInfo) (who : Identified)
      → get_process_identity win entry.process_id ≡ who
      → HasPid entry.process_id who
      → (added : List ProcessInfo) × (offer_identified win entry result who ≡ result ++ added)
        × IsAdded entry result added (is_user_process entry.process_id who)
  unfolding offer_identified
  offer_identified_lem entry result (unexpected error) h has =
      ([], sym (append-nil result), record { same_pids = refl; only_user = λ e. tt })
  offer_identified_lem entry result (identified i) h has =
      elim (Bool-cases (is_system_process_path win i.exe_path)) [
        | inl system ↦ (
          [],
          rw (system, offer_identified) (sym (append-nil result)),
          rw system (record { same_pids = refl; only_user = λ e. tt }),
        )
        | inr user ↦ elim (Bool-cases (is_session_zero win entry.process_id)) [
          | inl service ↦ (
            [],
            rw (user, service, offer_identified) (sym (append-nil result)),
            rw (user, service) (record { same_pids = refl; only_user = λ e. tt }),
          )
          | inr session ↦ (
            info_of win entry i ∷ [],
            rw (user, session, offer_identified) refl,
            rw (user, session)
                (record {
                  same_pids = refl;
                  only_user = λ e. (listed entry i e user session h has, tt);
                }),
          )
        ]
      ]

  offer_lem :
      (result : List ProcessInfo) (entry : ProcessEntry)
      → (added : List ProcessInfo) × (offer win result entry ≡ result ++ added)
        × (map (λ (p : ProcessInfo). p.pid) added
            ≡ (if is_offered entry.process_id then entry.process_id ∷ [] else []))
        × All IsListed added
  unfolding offer
  offer_lem result entry =
      let pid = entry.process_id in
      let (added, e, a) =
        offer_identified_lem entry result (get_process_identity win pid) refl
          (get_process_identity-HasPid pid) in
      elim (Bool-cases (is_skipped pid)) [
        | inl skipped ↦ (
          [],
          rw (skipped_test pid win.current_process_id true skipped, offer)
              (sym (append-nil result)),
          rw skipped refl,
          tt,
        )
        | inr looked_at ↦ (
          added,
          rw (skipped_test pid win.current_process_id false looked_at, offer) e,
          rw looked_at a.same_pids,
          a.only_user (rw looked_at refl),
        )
      ]

  offers_lem :
      (entries : List ProcessEntry) (result : List ProcessInfo)
      → All IsListed result
      → (map (λ (p : ProcessInfo). p.pid) (foldl (offer win) result entries)
          ≡ map (λ (p : ProcessInfo). p.pid) result
            ++ filter is_offered (map (λ (x : ProcessEntry). x.process_id) entries))
        × All IsListed (foldl (offer win) result entries)
  offers_lem [] result h = (sym (append-nil _), h)
  offers_lem (entry ∷ entries) result h =
      let (added, e, pids, ok) = offer_lem result entry in
      let (onwards, all) =
        offers_lem entries (offer win result entry)
          (rw e (All-append IsListed result added h ok)) in
      (
        onwards
            ∙ rw (e, map-append (λ (p : ProcessInfo). p.pid) result added, pids)
                (filter-step is_offered entry.process_id (map (λ (p : ProcessInfo). p.pid) result)
                  (map (λ (x : ProcessEntry). x.process_id) entries)),
        all,
      )

  -- `_wcsnicmp` finds no difference between a text and itself.
  pub record IsComparison : Type 0 where
    pub same : (s : List ℕ) → win.wcsnicmp (length s) s s ≡ true

  full_path : (path : List ℕ) → is_system_process_path win path ≡ false → is_empty path ≡ false
  unfolding is_system_process_path
  full_path [] h = cc
  full_path (c ∷ cs) h = refl

  current :
      IsComparison
      → (p : ProcessInfo) → IsListed p
      → p.creation_time ≢ 0
      → is_process_identity_current win (identity_of p) ≡ true
  unfolding is_process_identity_current agrees equals_insensitive
  current c p l dated =
      let some_pid : (p.pid == 0) ≡ false = ground (arith, l.not_idle) in
      let some_time : (p.creation_time == 0) ≡ false = ground (arith, dated) in
      let same_time : (p.creation_time == p.creation_time) ≡ true = ground arith in
      let same_length : (length p.exe_path == length p.exe_path) ≡ true = ground arith in
      rw (some_pid, some_time, full_path p.exe_path l.user_path, l.found, same_time, same_length)
        (c.same p.exe_path)

  recognised :
      IsComparison
      → (p : ProcessInfo) → IsListed p
      → (p.creation_time ≡ 0) ⊎ (is_process_identity_current win (identity_of p) ≡ true)
  recognised c p l = elim (dated_or_not p.creation_time) [
    | inl undated ↦ inl undated
    | inr dated ↦ inr (current c p l dated)
  ]

  -- The list has the pids of the snapshot, in its order, that are offered, and no other: those that
  -- are not 0, the System process or the program itself, whose process could be opened and read,
  -- and that stand neither in one of the system's directories nor in session zero. Each item
  -- has the path and the time of the process that has its pid; and unless this time is 0, it
  -- passes the check of its identity that the window makes before it starts and while it runs,
  -- as long as Windows answers the same.
  pub enumerated_pids :
      IsComparison
      → (entries : List ProcessEntry)
      → let processes = enumerate_processes win (some entries) in
        (map (λ (p : ProcessInfo). p.pid) processes
          ≡ filter is_offered (map (λ (x : ProcessEntry). x.process_id) entries))
        × All IsListed processes
        × All
            (λ p. (p.creation_time ≡ 0) ⊎ (is_process_identity_current win (identity_of p) ≡ true))
            processes
  unfolding enumerate_processes
  enumerated_pids c entries =
      let (pids, listed_all) = offers_lem entries [] tt in
      (pids, listed_all, All-weaken _ (λ p l. recognised c p l) listed_all)
