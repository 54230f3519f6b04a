-- ===== src/Chat/Split/Tally.antt =====
-- What the entries of a split count.
use mathlib.Core.List.{append-nil, append_assoc}
use mathlib.Core.Path.{subst}
use Prim.Native.Nat.{ℕ, ◌+◌}
use gdm_platform.Common.{
  Text, Text-eq, List, [], ◌∷◌, ◌++◌, keep, map, length, All, Among, none, some, Bool, true, false,
  ◌&&◌, not, leb, ◌==◌, ==_iff, JsMap, get, put, get-put, or_else, ◌≡◌, ◌⊎◌, refl, sym, ap, ◌∙◌,
  arith, inl, inr, Bool-cases, Option-cases,
}
use gdm_platform.Shared.Timestamp.{Timestamp}
use gdm_platform.Shared.Number.{Number, lt, minutes_ms, zero_number}
use gdm_platform.Shared.Interventions.{InterventionConfig, ContributionShare, LlmMode}
use gdm_platform.Shared.Models.{Message, ContributionClassification}
use gdm_platform.Shared.Words.{count_words}
use gdm_platform.Shared.Identity.{Identity, build_identities}
use gdm_platform.Checkpoint.Keyed.{set_all}
use gdm_platform.Chat.Split.{
  Stats, no_stats, invites, scores_of, tally, in_window, count_message, mean, empty_tally,
  score_entry, with_share, sum_from, contribution_split,
}

-- The words of messages.
abbrev pub total_words : List Message → ℕ
total_words [] = 0
total_words (m ∷ ms) = count_words m.text + total_words ms

module _ {N : Type 0} ⦃n : Number N⦄ (mode : LlmMode) (cutoff reset : N) (now_ms : ℕ)
    (by_message : JsMap Text (ContributionClassification N)) where
  -- From the cutoff to the end of the window, and strictly after the reset point; a time that does
  -- not parse is not held against a message.
  abbrev pub is_within : Timestamp → Bool
  is_within timestamp = elim timestamp.time [
    | none ↦ true
    | some ms ↦ n.le cutoff (n.of_ℕ ms) && leb ms now_ms && lt reset (n.of_ℕ ms)
  ]

  abbrev pub invites_others : Message → Bool
  invites_others m = invites mode (get m.id by_message)

  abbrev pub is_counted : Text → Message → Bool
  is_counted user_id m = (m.sender_id == user_id) && is_within m.timestamp && not (invites_others m)

  abbrev pub is_invitation : Text → Message → Bool
  is_invitation user_id m = (m.sender_id == user_id) && is_within m.timestamp && invites_others m

  -- The classifier's scores of messages, in their order.
  abbrev pub all_scores : List Message → List N
  all_scores [] = []
  all_scores (m ∷ ms) = scores_of (get m.id by_message) ++ all_scores ms

  in_window_within : (t : Timestamp) → in_window cutoff reset now_ms t ≡ is_within t
  unfolding in_window
  in_window_within t = ground arith

  -- The second statistics are the first with what the user said in the messages.
  record Adds (user_id : Text) (messages : List Message) (before after : Stats N) : Type 0 where
    pub message_count :
        after.message_count ≡ before.message_count + length (keep (is_counted user_id) messages)
    pub word_count :
        after.word_count ≡ before.word_count + total_words (keep (is_counted user_id) messages)
    pub invitation_count :
        after.invitation_count
        ≡ before.invitation_count + length (keep (is_invitation user_id) messages)
    pub meaningfulness :
        after.meaningfulness
        ≡ before.meaningfulness ++ all_scores (keep (is_counted user_id) messages)

  unmoved :
      (user_id : Text) (m : Message) (s : Stats N)
      → is_counted user_id m ≡ false
      → is_invitation user_id m ≡ false
      → Adds user_id (m ∷ []) s s
  unmoved user_id m s p q = record {
    message_count = rw p (omega arith);
    word_count = rw p (omega arith);
    invitation_count = rw q (omega arith);
    meaningfulness = rw p (sym (append-nil s.meaningfulness));
  }

  counted :
      (user_id : Text) (m : Message) (s : Stats N)
      → is_counted user_id m ≡ true
      → is_invitation user_id m ≡ false
      → Adds user_id (m ∷ []) s (record s {
        message_count = s.message_count + 1;
        word_count = s.word_count + count_words m.text;
        meaningfulness = s.meaningfulness ++ scores_of (get m.id by_message);
      })
  counted user_id m s p q = record {
    message_count = rw p refl;
    word_count = rw p (omega arith);
    invitation_count = rw q (omega arith);
    meaningfulness =
        rw p (ap (◌++◌ s.meaningfulness) (sym (append-nil (scores_of (get m.id by_message)))));
  }

  invited :
      (user_id : Text) (m : Message) (s : Stats N)
      → is_counted user_id m ≡ false
      → is_invitation user_id m ≡ true
      → Adds user_id (m ∷ []) s (record s { invitation_count = s.invitation_count + 1 })
  invited user_id m s p q = record {
    message_count = rw p (omega arith);
    word_count = rw p (omega arith);
    invitation_count = rw q refl;
    meaningfulness = rw p (sym (append-nil s.meaningfulness));
  }

  -- What `countMessage` makes of a message inside the window whose sender is the user.
  own_message :
      (user_id : Text) (m : Message) (s : Stats N)
      → (m.sender_id == user_id) ≡ true
      → is_within m.timestamp ≡ true
      → Adds user_id (m ∷ []) s (count_message mode (get m.id by_message) m s)
  unfolding count_message
  own_message user_id m s own within = elim (Bool-cases (invites mode (get m.id by_message))) [
    | inl calls ↦ rw (calls, count_message) (invited user_id m s (ground arith) (ground arith))
    | inr talks ↦ rw (talks, count_message) (counted user_id m s (ground arith) (ground arith))
  ]

  -- One message, in the order of the tests of the code.
  one_message :
      (user_id : Text) (m : Message) (by_user : JsMap Text (Stats N)) (s : Stats N)
      → get user_id by_user ≡ some s
      → (s' : Stats N) × (get user_id (tally mode cutoff reset now_ms by_message by_user (m ∷ []))
          ≡ some s')
        × Adds user_id (m ∷ []) s s'
  unfolding tally
  one_message user_id m by_user s found = elim (Option-cases (get m.sender_id by_user)) [
    | inl stranger ↦
        let other : (m.sender_id == user_id) ≡ false =
          not_own (λ same. cc (stranger, found, ap (λ k. get k by_user) same)) in
        (s, rw (stranger, tally) found, unmoved user_id m s (ground arith) (ground arith))
    | inr (stats, known) ↦ elim (Bool-cases (is_within m.timestamp)) [
      | inr outside ↦ (
        s,
        rw (known, tally) (rw (in_window_within m.timestamp ∙ outside) found),
        unmoved user_id m s (ground arith) (ground arith),
      )
      | inl within ↦
          let next = count_message mode (get m.id by_message) m stats in
          elim (Bool-cases (m.sender_id == user_id)) [
            | inr other ↦ (
              s,
              rw (known, tally)
                  (rw (in_window_within m.timestamp ∙ within)
                    (get-put user_id m.sender_id next by_user ∙ rw other found)),
              unmoved user_id m s (ground arith) (ground arith),
            )
            | inl own ↦
                let same : m.sender_id ≡ user_id = (==_iff m.sender_id user_id).0 own in
                let mine : stats ≡ s = cc (known, found, ap (λ k. get k by_user) same) in
                (
                  next,
                  rw (known, tally)
                      (rw (in_window_within m.timestamp ∙ within)
                        (get-put user_id m.sender_id next by_user ∙ rw own refl)),
                  subst (λ x. Adds user_id (m ∷ []) x next) mine
                      (own_message user_id m stats own within),
                )
          ]
    ]
  ]
    where
      not_own : ((m.sender_id ≡ user_id) → ⊥) → (m.sender_id == user_id) ≡ false
      not_own f = elim (Bool-cases (m.sender_id == user_id)) [
        | inl own ↦ absurd (f ((==_iff m.sender_id user_id).0 own))
        | inr other ↦ other
      ]

  length-keep_cons :
      (test : Message → Bool) (m : Message) (ms : List Message)
      → length (keep test (m ∷ ms)) ≡ length (keep test (m ∷ [])) + length (keep test ms)
  length-keep_cons test m ms = elim (Bool-cases (test m)) [
    | inl hit ↦ rw hit (omega arith)
    | inr miss ↦ rw miss (omega arith)
  ]

  total_words-keep_cons :
      (test : Message → Bool) (m : Message) (ms : List Message)
      → total_words (keep test (m ∷ ms))
        ≡ total_words (keep test (m ∷ [])) + total_words (keep test ms)
  total_words-keep_cons test m ms = elim (Bool-cases (test m)) [
    | inl hit ↦ rw hit (omega arith)
    | inr miss ↦ rw miss (omega arith)
  ]

  all_scores-keep_cons :
      (test : Message → Bool) (m : Message) (ms : List Message)
      → all_scores (keep test (m ∷ ms))
        ≡ all_scores (keep test (m ∷ [])) ++ all_scores (keep test ms)
  all_scores-keep_cons test m ms = elim (Bool-cases (test m)) [
    | inl hit ↦ rw hit (
        ap (λ l. l ++ all_scores (keep test ms))
          (sym (append-nil (scores_of (get m.id by_message)))))
    | inr miss ↦ rw miss refl
  ]

  tally-Adds :
      (user_id : Text) (messages : List Message) (by_user : JsMap Text (Stats N)) (s : Stats N)
      → get user_id by_user ≡ some s
      → (s' : Stats N) × (get user_id (tally mode cutoff reset now_ms by_message by_user messages)
          ≡ some s')
        × Adds user_id messages s s'
  unfolding tally
  tally-Adds user_id [] by_user s found = (
    s,
    found,
    record {
      message_count = omega arith;
      word_count = omega arith;
      invitation_count = omega arith;
      meaningfulness = sym (append-nil s.meaningfulness);
    },
  )
  tally-Adds user_id (m ∷ ms) by_user s found =
      let (s1, here, first) = one_message user_id m by_user s found in
      let (s2, there, rest) =
        tally-Adds user_id ms (tally mode cutoff reset now_ms by_message by_user (m ∷ [])) s1
          here in
      let talk = is_counted user_id in
      let call = is_invitation user_id in
      (
        s2,
        there,
        record {
          message_count =
              omega (arith, first.message_count, rest.message_count, length-keep_cons talk m ms);
          word_count =
              omega (arith, first.word_count, rest.word_count, total_words-keep_cons talk m ms);
          invitation_count =
              omega
                (arith, first.invitation_count, rest.invitation_count, length-keep_cons call m ms);
          meaningfulness =
              rest.meaningfulness
              ∙ ap (λ l. l ++ all_scores (keep talk ms)) first.meaningfulness
              ∙ append_assoc s.meaningfulness (all_scores (keep talk (m ∷ [])))
                  (all_scores (keep talk ms))
              ∙ ap (◌++◌ s.meaningfulness) (sym (all_scores-keep_cons talk m ms));
        },
      )

  -- The entry of a user in a split counts, of the messages, those of the user in the time of the
  -- window that do not invite others: their number, their words and the mean of the classifier's
  -- scores; and, apart, those that do.
  pub record IsTally (messages : List Message) (entry : ContributionShare N) : Type 0 where
    pub message_count : entry.message_count ≡ length (keep (is_counted entry.user_id) messages)
    pub word_count : entry.word_count ≡ total_words (keep (is_counted entry.user_id) messages)
    pub invitation_count :
        entry.invitation_count ≡ some (length (keep (is_invitation entry.user_id) messages))
    pub meaningfulness :
        entry.meaningfulness_score ≡ mean (all_scores (keep (is_counted entry.user_id) messages))

  entry-IsTally :
      (config : InterventionConfig N) (identities : JsMap Text Identity) (total : N)
      (messages : List Message) (by_user : JsMap Text (Stats N)) (user_id : Text)
      → get user_id by_user ≡ some no_stats
      → IsTally messages (
          with_share config mode total (
            score_entry config identities
              (tally mode cutoff reset now_ms by_message by_user messages)
              user_id))
  unfolding with_share score_entry
  entry-IsTally config identities total messages by_user user_id found =
      let (s, there, adds) = tally-Adds user_id messages by_user no_stats found in
      record {
        message_count =
            ap (λ o. (or_else o no_stats).message_count) there ∙ omega (arith, adds.message_count);
        word_count =
            ap (λ o. (or_else o no_stats).word_count) there ∙ omega (arith, adds.word_count);
        invitation_count =
            ap (λ o. some (or_else o no_stats).invitation_count) there
            ∙ ap some (omega (arith, adds.invitation_count));
        meaningfulness =
            ap (λ o. mean (or_else o no_stats).meaningfulness) there ∙ ap mean adds.meaningfulness;
      }

All-map :
    {A B : Type 0} (P : B → Type 0) (f : A → B) (xs : List A)
    → All (λ x. P (f x)) xs
    → All P (map f xs)
All-map P f [] h = tt
All-map P f (x ∷ xs) h = (h.0, All-map P f xs h.1)

All_of_among : {A : Type 0} (P : A → Type 0) (xs : List A) → ((x : A) → Among x xs → P x) → All P xs
All_of_among P [] h = tt
All_of_among P (x ∷ xs) h = (h x (inl refl), All_of_among P xs (λ y a. h y (inr a)))

module _ {N : Type 0} ⦃n : Number N⦄ where
  get-empty_tally :
      (ids : List Text) (by_user : JsMap Text (Stats N)) (id : Text)
      → Among id ids ⊎ (get id by_user ≡ some no_stats)
      → get id (empty_tally ids by_user) ≡ some no_stats
  unfolding empty_tally
  get-empty_tally [] by_user id (inl a) = elim a [ ]
  get-empty_tally [] by_user id (inr found) = found
  get-empty_tally (x ∷ ids) by_user id h =
      get-empty_tally ids (put x no_stats by_user) id (elim (Bool-cases (x == id)) [
        | inl hit ↦ inr (get-put id x no_stats by_user ∙ rw hit refl)
        | inr miss ↦ elim h [
          | inl (inl same) ↦ cc (miss, (==_iff x id).1 (sym same))
          | inl (inr later) ↦ inl later
          | inr found ↦ inr (get-put id x no_stats by_user ∙ rw miss found)
        ]
      ])

  -- Every entry of a split counts what its participant said: of the session's messages those of the
  -- participant from the start to the end of the window, strictly after the reset point and, in the
  -- active mode, not classified as inviting others, where a message whose time does not parse is
  -- inside; their number, their words and the mean of their classifier scores are the entry's, and
  -- the number of the invitations stands apart.
  pub contribution_split-IsTally :
      (messages : List Message) (classifications : List (ContributionClassification N))
      (participant_ids : List Text) (config : InterventionConfig N) (now_ms : ℕ) (mode : LlmMode)
      (reset : N) (roster : List Text)
      → All
          (IsTally mode
            (n.sub (n.of_ℕ now_ms) (minutes_ms config.contribution_window_minutes))
            reset
            now_ms
            (set_all (λ c. c.message_id) [] classifications)
            messages)
          (contribution_split messages classifications participant_ids config now_ms mode reset
            roster)
  unfolding contribution_split
  contribution_split-IsTally messages classifications participant_ids config now_ms mode reset
        roster =
      All-map tallied (with_share config mode total) scores (
        All-map (λ e. tallied (with_share config mode total e)) scored participant_ids
          (All_of_among (λ id. tallied (with_share config mode total (scored id))) participant_ids
            (λ id among.
              entry-IsTally mode cutoff reset now_ms by_message config (build_identities roster)
                total messages empty id (get-empty_tally participant_ids [] id (inl among)))))
    where
      cutoff : N
      cutoff = n.sub (n.of_ℕ now_ms) (minutes_ms config.contribution_window_minutes)

      by_message : JsMap Text (ContributionClassification N)
      by_message = set_all (λ c. c.message_id) [] classifications

      tallied : ContributionShare N → Type 0
      tallied = IsTally mode cutoff reset now_ms by_message messages

      empty : JsMap Text (Stats N)
      empty = empty_tally participant_ids []

      scored : Text → ContributionShare N
      scored =
          score_entry config (build_identities roster)
            (tally mode cutoff reset now_ms by_message empty messages)

      scores : List (ContributionShare N)
      scores = map scored participant_ids

      total : N
      total = sum_from zero_number (map (λ entry. entry.score) scores)
