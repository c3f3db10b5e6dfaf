-- ===== src/SpeakerSelector/Turns.antt =====
-- The counters of text turns along a chat in which the agent that the selector picked speaks.
use multi_agent_intel_pipeli.Prelude.{
  ℕ, ◌≤◌, ◌≡◌, refl, String, Bool, true, false, ◌&&◌, some, ◌==◌, arith, if◌then◌else◌, eq_iff,
  Dict, str_mem, contains, List, [], ◌∷◌, get_or, get_or-insert, insert, Bool-cases, inl, inr,
}
use multi_agent_intel_pipeli.SpeakerSelector.{Message, select, count_turn, reset}

-- The chat: the role that speaks and the counters, after the messages.
unfoldable pub converse :
    List String → Bool → (String → String) → List Message → Dict ℕ × String → Dict ℕ × String
converse monitored has_executor route [] now = now
converse monitored has_executor route (m ∷ ms) now =
    converse monitored has_executor route ms
      (select monitored has_executor route now.1 (some m) now.0)

-- No counter is above one, and if one of the counted roles is to speak next then none is above zero.
abbrev pub IsRestrained : List String → Dict ℕ × String → Type 0
IsRestrained monitored now =
    ((k : String) → get_or k 0 now.0 ≤ 1)
    × (str_mem now.1 monitored ≡ true
        → (k : String) → str_mem k monitored ≡ true
        → get_or k 0 now.0 ≡ 0)

reset-le :
    (rs : List String) (turns : Dict ℕ)
    → ((k : String) → get_or k 0 turns ≤ 1)
    → (k : String) → get_or k 0 (reset rs turns) ≤ 1
unfolding reset
reset-le [] turns h k = h k
reset-le (r ∷ rs) turns h k =
    reset-le rs (insert r 0 turns) (λ j. rw get_or-insert (ground (arith, h j))) k

reset-zero :
    (rs : List String) (turns : Dict ℕ) (k : String)
    → (get_or k 0 turns ≡ 0)
    → get_or k 0 (reset rs turns) ≡ 0
unfolding reset
reset-zero [] turns k h = h
reset-zero (r ∷ rs) turns k h = reset-zero rs (insert r 0 turns) k (rw get_or-insert (ground arith))

reset-mem :
    (rs : List String) (turns : Dict ℕ) (k : String)
    → str_mem k rs ≡ true
    → get_or k 0 (reset rs turns) ≡ 0
unfolding reset
reset-mem [] turns k h = absurd (ground arith)
reset-mem (r ∷ rs) turns k h = elim (Bool-cases (r == k)) [
  | inl e ↦ reset-zero rs (insert r 0 turns) k (rw (get_or-insert, e) refl)
  | inr e ↦ reset-mem rs (insert r 0 turns) k (ground (arith, eq_iff r k, eq_iff k r))
]

module _ (monitored : List String) (has_executor : Bool) (route : String → String)
    (lead_uncounted : str_mem "lead" monitored ≡ false)
    (executor_uncounted : str_mem "executor" monitored ≡ false) where
  count_turn-IsRestrained :
      (role : String) (turns : Dict ℕ)
      → IsRestrained monitored (turns, role)
      → ((count_turn monitored role turns).1 ≡ false)
        × ((k : String) → get_or k 0 (count_turn monitored role turns).0 ≤ 1)
  unfolding count_turn
  count_turn-IsRestrained role turns (low, h) = elim (Bool-cases (str_mem role monitored)) [
    | inl e ↦ let z = h e role e in rw (e, z) (refl, λ k. rw get_or-insert (ground (arith, low k)))
    | inr e ↦ rw e (refl, reset-le monitored turns low)
  ]

  abbrev spoken : String → Message → Dict ℕ → Dict ℕ × String
  spoken role m turns =
      let counted = count_turn monitored role turns in
      (
        counted.0,
        if counted.1
            then "lead"
            else if contains "TERMINATE" m.content
            then "lead"
            else if role == "lead"
            then route m.content
            else "lead",
      )

  spoken-lead :
      (role : String) (turns : Dict ℕ) (m : Message)
      → (role == "lead") ≡ false
      → (spoken role m turns).1 ≡ "lead"
  spoken-lead role turns m e = ground (arith, e)

  lead-reset :
      (role : String) (turns : Dict ℕ)
      → (role == "lead") ≡ true
      → (count_turn monitored role turns).0 ≡ reset monitored turns
  unfolding count_turn
  lead-reset role turns e = rw ((eq_iff role "lead").0 e, lead_uncounted) refl

  spoken-IsRestrained :
      (role : String) (turns : Dict ℕ) (m : Message)
      → IsRestrained monitored (turns, role)
      → IsRestrained monitored (spoken role m turns)
  spoken-IsRestrained role turns m v = (
    (count_turn-IsRestrained role turns v).1,
    λ next k mem. elim (Bool-cases (role == "lead")) [
      | inl e ↦ rw (lead-reset role turns e) (reset-mem monitored turns k mem)
      | inr e ↦ absurd (ground (arith, spoken-lead role turns m e, next, lead_uncounted))
    ],
  )

  branch :
      (b : Bool) (x y : Dict ℕ × String)
      → IsRestrained monitored x
      → IsRestrained monitored y
      → IsRestrained monitored (if b then x else y)
  branch true x y p q = p
  branch false x y p q = q

  select-IsRestrained :
      (role : String) (turns : Dict ℕ) (m : Message)
      → IsRestrained monitored (turns, role)
      → IsRestrained monitored (select monitored has_executor route role (some m) turns)
  unfolding select
  select-IsRestrained role turns m v =
      branch (m.tool_calls && has_executor) _ _
        ((λ k. rw get_or-insert (ground (arith, v.0 k))), λ next k mem. absurd (ground arith))
        (branch (role == "executor") _ _ (v.0, λ next k mem. absurd (ground arith))
          (spoken-IsRestrained role turns m v))

  converse-IsRestrained :
      (ms : List Message) (now : Dict ℕ × String)
      → IsRestrained monitored now
      → IsRestrained monitored (converse monitored has_executor route ms now)
  unfolding converse
  converse-IsRestrained [] now v = v
  converse-IsRestrained (m ∷ ms) now v =
      converse-IsRestrained ms _ (select-IsRestrained now.1 now.0 m v)

  -- In a chat that starts with the lead and no counts, in which the role that was selected speaks,
  -- the loop guard never sends the chat back to the lead, whatever the messages are, and no counter
  -- is ever above one.
  pub converse-loop_guard :
      (ms : List Message)
      → let now = converse monitored has_executor route ms ([], "lead") in
        ((count_turn monitored now.1 now.0).1 ≡ false) × ((k : String) → get_or k 0 now.0 ≤ 1)
  converse-loop_guard ms =
      let v =
        converse-IsRestrained ms ([], "lead")
          (unfold get_or in (λ k. omega arith, λ next k mem. refl)) in
      ((count_turn-IsRestrained _ _ v).0, v.0)
