-- ===== src/DiagnosticsTab/Polled.antt =====
-- What the log view shows, over any calls of the log and any use of the tab.
use mathlib.Core.List.{append_assoc, append-nil}
use native.Mathlib.Decide.{dec_lt}
use scrambler.Prelude.{
  ℕ, zero, suc, ◌+◌, ◌-◌, ◌≤◌, ◌<◌, ◌≡◌, sym, ap, ◌∙◌, subst, ◌⊎◌, inl, inr, List, [], ◌∷◌, ◌++◌,
  foldl, length, length-append, length-drop, drop, min, arith,
}
use scrambler.Diagnostics.{LogEntry, Diagnostics, snapshot_since}
use scrambler.Diagnostics.Since.{Consecutive, Newer, Older, IsRing, walk-IsWalk}
use scrambler.DiagnosticsTab.{
  DiagnosticsTab, log_view_max_blocks, log_poll_batch, keep_last, append_block, last_seq,
  refresh_log,
}

module _ {A : Type 0} where
  drop_more :
      (j k : ℕ) (xs ys : List A)
      → k ≤ length xs
      → drop j (drop k xs ++ ys) ≡ drop (k + j) (xs ++ ys)
  drop_more j zero xs ys h = ap (λ n. drop n (xs ++ ys)) (omega arith)
  drop_more j (suc k) [] ys h = absurd (omega arith)
  drop_more j (suc k) (x ∷ xs) ys h =
      let fits : k ≤ length xs = omega (arith, h) in
      let same : suc (k + j) ≡ suc k + j = omega arith in
      drop_more j k xs ys fits ∙ ap (λ n. drop n (x ∷ xs ++ ys)) same

  -- Dropping the oldest in between changes nothing.
  keep_last-append :
      (n : ℕ) (xs ys : List A) → keep_last n (keep_last n xs ++ ys) ≡ keep_last n (xs ++ ys)
  keep_last-append n xs ys =
      drop_more (length (keep_last n xs ++ ys) - n) (length xs - n) xs ys (omega arith)
      ∙ ap (λ k. drop k (xs ++ ys))
          (omega (
            arith,
            length-append (keep_last n xs) ys,
            length-append xs ys,
            length-drop (length xs - n) xs,
          ))

  pub length-keep_last : (n : ℕ) (xs : List A) → length (keep_last n xs) ≤ n
  length-keep_last n xs = omega (arith, length-drop (length xs - n) xs)

  keep_last_all : (n : ℕ) (xs : List A) → length xs ≤ n → keep_last n xs ≡ xs
  keep_last_all n xs h =
      let none_over : length xs - n ≡ 0 = omega arith in ap (λ k. drop k xs) none_over

module _ {S : Type 0} where
  pub appended :
      (view : List (LogEntry S)) (es : List (LogEntry S))
      → length view ≤ log_view_max_blocks
      → foldl append_block view es ≡ keep_last log_view_max_blocks (view ++ es)
  appended view [] h = rw (append-nil view) (sym (keep_last_all log_view_max_blocks view h))
  appended view (e ∷ es) h =
      appended (append_block view e) es (length-keep_last log_view_max_blocks (view ++ e ∷ []))
      ∙ keep_last-append log_view_max_blocks (view ++ e ∷ []) es
      ∙ ap (keep_last log_view_max_blocks) (append_assoc view (e ∷ []) es)

  pub Consecutive-parts :
      (n : ℕ) (xs ys : List (LogEntry S))
      → Consecutive n (xs ++ ys)
      → Consecutive n xs × Consecutive (n + length xs) ys
  Consecutive-parts n [] ys c = (tt, subst (λ k. Consecutive k ys) (omega arith) c)
  Consecutive-parts n (x ∷ xs) ys c =
      let (front, back) = Consecutive-parts (suc n) xs ys c.1 in
      ((c.0, front), subst (λ k. Consecutive k ys) (omega arith) back)

  pub Newer-start :
      (since n : ℕ) (es : List (LogEntry S))
      → Consecutive n es
      → Newer since es
      → 0 < length es
      → since < n
  Newer-start since n [] c h some = absurd (omega arith)
  Newer-start since n (e ∷ es) c h some = omega (arith, c.0, h.0)

  pub Older-end :
      (since n : ℕ) (es : List (LogEntry S))
      → Consecutive n es
      → Older since es
      → 0 < length es
      → n + length es ≤ suc since
  Older-end since n [] c h some = absurd (omega arith)
  Older-end since n (e ∷ []) c h some = omega (arith, c.0, h.0)
  Older-end since n (e ∷ e' ∷ es) c h some =
      omega (arith, Older-end since (suc n) (e' ∷ es) c.1 h.1 (omega arith))

  pub last_seq_lem :
      (since n : ℕ) (es : List (LogEntry S))
      → Consecutive n es
      → 0 < length es
      → suc (last_seq since es) ≡ n + length es
  last_seq_lem since n [] c some = absurd (omega arith)
  last_seq_lem since n (e ∷ []) c some = omega (arith, c.0)
  last_seq_lem since n (e ∷ e' ∷ es) c some =
      omega (arith, last_seq_lem e.seq (suc n) (e' ∷ es) c.1 (omega arith))

  caught :
      (since next start : ℕ) (es : List (LogEntry S))
      → Consecutive start es
      → start + length es ≡ next
      → since < next
      → length es ≡ min log_poll_batch (next - 1 - since)
      → suc (last_seq since es) ≡ next
  caught since next start [] c e h count = omega arith
  caught since next start (x ∷ xs) c e h count =
      omega (arith, last_seq_lem since start (x ∷ xs) c (omega arith))

-- What one poll of the log finds: the newest entries that were not seen yet, 512 of them at most.
pub record IsPolled {S K : Type 0} (d : Diagnostics S K) (t t' : DiagnosticsTab S) : Type 0 where
  pub older : List (LogEntry S)
  pub entries : List (LogEntry S)
  pub of_ring : d.ring ≡ older ++ entries
  pub count : length entries ≡ min log_poll_batch (d.next_seq - 1 - t.last_seen_seq)
  pub in_a_row : Consecutive (d.next_seq - length entries) entries
  pub view : t'.log_view ≡ keep_last log_view_max_blocks (t.log_view ++ entries)
  pub caught_up : suc t'.last_seen_seq ≡ d.next_seq

module _ {S K : Type 0} where
  -- How many entries `SnapshotSince` answers.
  polled_count :
      (since : ℕ) (d : Diagnostics S K) (r : IsRing d) (older out : List (LogEntry S))
      → since < d.next_seq
      → d.ring ≡ older ++ out
      → Newer since out
      → length out ≤ log_poll_batch
      → (log_poll_batch ≤ length out) ⊎ Older since older
      → length out ≡ min log_poll_batch (d.next_seq - 1 - since)
  polled_count since d r older out seen split newer within (inl full) =
      let (_, back) =
        Consecutive-parts r.first older out (subst (Consecutive r.first) split r.in_a_row) in
      let start = Newer-start since (r.first + length older) out back newer (omega arith) in
      omega (arith, start, r.up_to, ap length split, length-append older out)
  polled_count since d r [] out seen split newer within (inr all_older) = elim r.whole [
    | inl from_one ↦ elim (dec_lt 0 (length out)) [
      | yes some ↦
          let start =
            Newer-start since r.first out (subst (Consecutive r.first) split r.in_a_row) newer
              some in
          omega (arith, start, from_one, r.up_to, ap length split)
      | no none_left ↦ omega (arith, from_one, r.up_to, ap length split)
    ]
    | inr full ↦ absurd (omega (arith, full, ap length split))
  ]
  polled_count since d r (e ∷ es) out seen split newer within (inr all_older) =
      let (front, back) =
        Consecutive-parts r.first (e ∷ es) out (subst (Consecutive r.first) split r.in_a_row) in
      let end = Older-end since r.first (e ∷ es) front all_older (omega arith) in
      elim (dec_lt 0 (length out)) [
        | yes some ↦
            let start = Newer-start since (r.first + length (e ∷ es)) out back newer some in
            omega (arith, end, start, r.up_to, ap length split, length-append (e ∷ es) out)
        | no none_left ↦ omega (arith, end, r.up_to, ap length split, length-append (e ∷ es) out)
      ]

  pub refresh_log-IsPolled :
      (d : Diagnostics S K) (t : DiagnosticsTab S)
      → IsRing d
      → t.last_seen_seq < d.next_seq
      → length t.log_view ≤ log_view_max_blocks
      → IsPolled d t (refresh_log d t)
  unfolding refresh_log snapshot_since
  refresh_log-IsPolled d t r seen room =
      let w = walk-IsWalk t.last_seen_seq log_poll_batch r.first d.ring r.in_a_row in
      let out = snapshot_since d t.last_seen_seq log_poll_batch in
      let (_, back) =
        Consecutive-parts r.first w.older out (subst (Consecutive r.first) w.split r.in_a_row) in
      let reason : (log_poll_batch ≤ length out) ⊎ Older t.last_seen_seq w.older = elim w.reason [
        | inl enough ↦ inl enough.0
        | inr (all_older, some_older) ↦ inr all_older
      ] in
      let count =
        polled_count t.last_seen_seq d r w.older out seen w.split w.newer (omega (arith, w.within))
          reason in
      let up_to : r.first + length w.older + length out ≡ d.next_seq =
        omega (arith, r.up_to, ap length w.split, length-append w.older out) in
      record {
        older = w.older;
        entries = out;
        of_ring = w.split;
        count = count;
        in_a_row = subst (λ k. Consecutive k out) (omega (arith, up_to)) back;
        view = appended t.log_view out room;
        caught_up = caught t.last_seen_seq d.next_seq _ out back up_to seen count;
      }
