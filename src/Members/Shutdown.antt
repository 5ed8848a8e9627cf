-- ===== src/Members/Shutdown.antt =====
-- The shutdown of the services of strands and channels.
use executors.Base.{
  ℕ, zero, suc, ◌<◌, ◌≡◌, refl, sym, ◌∙◌, ap, subst, Option, none, some, List, [], ◌∷◌, ◌++◌, arith,
  length, NotIn, All, update, Ensures,
}
use executors.Base.Chain.{Node, Linked, Distinct}
use executors.Members.{Members, shutdown, take_strand, take_channel}
use executors.Members.Steps.{IsMembers}
use executors.Strand.{Strand}
use executors.Channel.Types.{Channel}

module _ {A : Type 0} {B : Type 0} (take : A → A × List B) where
  -- The operations of the objects, in the order of the list.
  abbrev pub all_taken : (ℕ → A) → List ℕ → List B
  all_taken object [] = []
  all_taken object (a ∷ xs) = (take (object a)).1 ++ all_taken object xs

  -- What the loop leaves and gives.
  pub record Emptied (object : ℕ → A) (xs : List ℕ) (r : (ℕ → A) × List B) : Type 0 where
    pub given : r.1 ≡ all_taken object xs
    pub taken : All (λ a. r.0 a ≡ (take (object a)).0) xs
    pub others : (a : ℕ) → NotIn a xs → r.0 a ≡ object a

  all_taken-update :
      (object : ℕ → A) (a : ℕ) (o : A) (xs : List ℕ)
      → NotIn a xs
      → all_taken (update object a o) xs ≡ all_taken object xs
  all_taken-update object a o [] n = refl
  all_taken-update object a o (x ∷ xs) n = ground (arith, n.0, all_taken-update object a o xs n.1)

  update-taken :
      (object left : ℕ → A) (a : ℕ) (o : A) (xs : List ℕ)
      → NotIn a xs
      → All (λ x. left x ≡ (take (update object a o x)).0) xs
      → All (λ x. left x ≡ (take (object x)).0) xs
  update-taken object left a o [] n h = tt
  update-taken object left a o (x ∷ xs) n h =
      (ground (arith, n.0, h.0), update-taken object left a o xs n.1 h.1)

  shutdown_from :
      (fuel before first : ℕ) (xs : List ℕ) (node : ℕ → Node) (object : ℕ → A)
      → length xs < fuel
      → Linked node before first xs
      → Distinct xs
      → Ensures (Emptied object xs) (shutdown take fuel first node object)
  unfolding shutdown
  shutdown_from zero before first xs node object f c d = absurd (omega arith)
  shutdown_from (suc fuel) before first [] node object f c d =
      let e : shutdown take (suc fuel) first node object ≡ some (object, []) = ground (arith, c) in
      subst (Ensures (Emptied object [])) (sym e)
        (record { given = refl; taken = tt; others = λ a n. refl })
  shutdown_from (suc fuel) before first (x ∷ xs) node object f c d =
      let e : shutdown take (suc fuel) first node object
          ≡ rest (shutdown take fuel (node x).next node cleared) =
        ground (arith, c.0, c.1) in
      subst (Ensures (Emptied object (x ∷ xs))) (sym e) (
        go (shutdown take fuel (node x).next node cleared)
          (shutdown_from fuel x (node x).next xs node cleared (omega arith) c.3 d.1))
    where
      cleared : ℕ → A
      cleared = update object x (take (object x)).0

      rest : Option ((ℕ → A) × List B) → Option ((ℕ → A) × List B)
      rest o = elim o [ none ↦ none | some (left, more) ↦ some (left, (take (object x)).1 ++ more) ]

      go :
          (o : Option ((ℕ → A) × List B))
          → Ensures (Emptied cleared xs) o
          → Ensures (Emptied object (x ∷ xs)) (rest o)
      go none h = h
      go (some r) h = record {
        given =
            ap (λ l. (take (object x)).1 ++ l)
              (h.given ∙ all_taken-update object x (take (object x)).0 xs d.0);
        taken = (
          h.others x d.0 ∙ ground arith,
          update-taken object r.0 x (take (object x)).0 xs d.0 h.taken,
        );
        others = λ a n. h.others a n.1 ∙ ground (arith, n.0);
      }

-- The shutdown of the service `s` of strands terminates, with more fuel than it has strands: it takes all
-- operations that wait for its strands or are ready in them, in the order of its list, leaves both queues
-- of each empty, and changes no other strand.
pub shutdown_strands_lem :
    (fuel s : ℕ) (lists : ℕ → List ℕ) (m : Members) (strand_of : ℕ → Strand)
    → length (lists s) < fuel
    → IsMembers lists m
    → Ensures
        (Emptied take_strand strand_of (lists s))
        (shutdown take_strand fuel (m.first s) m.node strand_of)
shutdown_strands_lem fuel s lists m strand_of f h =
    shutdown_from take_strand fuel 0 (m.first s) (lists s) m.node strand_of f (h s).0 (h s).1

-- The shutdown of the service `s` of channels terminates, with more fuel than it has channels: it takes
-- all operations that wait for its channels, in the order of its list, and changes no other channel.
pub shutdown_channels_lem :
    {T : Type 0} (fuel s : ℕ) (lists : ℕ → List ℕ) (m : Members) (channel_of : ℕ → Channel T)
    → length (lists s) < fuel
    → IsMembers lists m
    → Ensures
        (Emptied take_channel channel_of (lists s))
        (shutdown take_channel fuel (m.first s) m.node channel_of)
shutdown_channels_lem fuel s lists m channel_of f h =
    shutdown_from take_channel fuel 0 (m.first s) (lists s) m.node channel_of f (h s).0 (h s).1
