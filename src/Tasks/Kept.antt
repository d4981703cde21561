-- ===== src/Tasks/Kept.antt =====
-- What the agent sends of a task's output, over writes and takes in any order (agent/tasks.go).
use sy_mon.Base.{
  ℕ, zero, suc, ◌==◌, nat_eq, not, select, if◌then◌else◌, inl, inr, Bool-cases, ◌+◌, ◌-◌, min, Bool,
  ◌||◌, List, [], ◌∷◌, ◌++◌, map, ltb, length, take, ◌≡◌, refl, arith, ◌∙◌, sym, ap, subst,
  length-append, take-append-drop,
}
use mathlib.Core.List.{append_assoc, append-nil}
use sy_mon.Tasks.Output.{Output, no_output, output_limit, write, cut_output, cleaned, take_output}

pub data Event : Type 0 where
  printed : List ℕ → Event
  taken : Bool → Event

abbrev pub all_printed : List Event → List ℕ
all_printed [] = []
all_printed (printed data' ∷ es) = data' ++ all_printed es
all_printed (taken end ∷ es) = all_printed es

-- The texts that the takes returned, and the state after the events.
abbrev pub run : (List ℕ → List ℕ) → List Event → Output → List (List ℕ) × Output
run to_valid [] o = ([], o)
run to_valid (printed data' ∷ es) o = run to_valid es (write data' o)
run to_valid (taken end ∷ es) o =
    let t = take_output to_valid end o in let r = run to_valid es t.1 in (t.0.0 ∷ r.0, r.1)

abbrev pub joined : List (List ℕ) → List ℕ
joined [] = []
joined (piece ∷ rest) = piece ++ joined rest

-- The same before the conversion to text.
pieces : List Event → Output → List (List ℕ) × Output
pieces [] o = ([], o)
pieces (printed data' ∷ es) o = pieces es (write data' o)
pieces (taken end ∷ es) o = let t = cut_output end o in let r = pieces es t.1 in (t.0 ∷ r.0, r.1)

run-pieces :
    (to_valid : List ℕ → List ℕ) (es : List Event) (o : Output)
    → run to_valid es o ≡ (map (cleaned to_valid) (pieces es o).0, (pieces es o).1)
unfolding take_output pieces
run-pieces to_valid [] o = refl
run-pieces to_valid (printed data' ∷ es) o = run-pieces to_valid es (write data' o)
run-pieces to_valid (taken end ∷ es) o =
    ap (λ r. (cleaned to_valid (cut_output end o).0 ∷ r.0, r.1))
      (run-pieces to_valid es (cut_output end o).1)

take_same : (j k : ℕ) (xs : List ℕ) → j ≡ k → take j xs ≡ take k xs
take_same j k xs e = ap (λ i. take i xs) e

take-append : (n : ℕ) (xs ys : List ℕ) → take n (xs ++ ys) ≡ take n xs ++ take (n - length xs) ys
take-append zero xs ys = take_same 0 (0 - length xs) ys (omega arith)
take-append (suc n) [] ys = take_same (suc n) (suc n - 0) ys (omega arith)
take-append (suc n) (x ∷ xs) ys = ap (◌∷◌ x) (
    take-append n xs ys
    ∙ ap (◌++◌ (take n xs)) (take_same (n - length xs) (suc n - suc (length xs)) ys (omega arith)))

take-min : (n : ℕ) (xs : List ℕ) → take (min (length xs) n) xs ≡ take n xs
take-min zero xs = take_same (min (length xs) 0) 0 xs (omega arith)
take-min (suc n) [] = take_same (min 0 (suc n)) 0 [] (omega arith)
take-min (suc n) (x ∷ xs) =
    take_same (min (suc (length xs)) (suc n)) (suc (min (length xs) n)) (x ∷ xs) (omega arith)
    ∙ ap (◌∷◌ x) (take-min n xs)

told-lem : (n s d : ℕ) → (ltb n s || ltb (min d (n - min s n)) d) ≡ ltb n (s + d)
told-lem n s d = ground arith

-- What `write` takes of the data makes the kept text longer by as much as fits.
room :
    (n : ℕ) (seen data' : List ℕ)
    → take n seen ++ take (min (length data') (n - min (length seen) n)) data'
      ≡ take n (seen ++ data')
room n seen data' =
    ap (λ xs. take n seen ++ xs)
      (take-min (n - min (length seen) n) data'
        ∙ take_same (n - min (length seen) n) (n - length seen) data' (omega arith))
    ∙ sym (take-append n seen data')

-- `seen` was printed before, and `sent` of it has been taken.
record Keeps (seen sent : List ℕ) (o : Output) : Type 0 where
  whole : sent ++ o.pending ≡ take output_limit seen
  counted : o.kept ≡ min (length seen) output_limit
  told : o.dropped ≡ ltb output_limit (length seen)

write-Keeps :
    (seen sent data' : List ℕ) (o : Output)
    → Keeps seen sent o
    → Keeps (seen ++ data') sent (write data' o)
unfolding write
write-Keeps seen sent data' o k = record {
  whole =
      sym (append_assoc sent o.pending _)
      ∙ ap (λ xs. xs ++ take (min (length data') (output_limit - o.kept)) data') k.whole
      ∙ ap (λ m. take output_limit seen ++ take (min (length data') (output_limit - m)) data')
          k.counted
      ∙ room output_limit seen data';
  counted = omega (arith, k.counted, length-append seen data');
  told =
      rw (k.counted, k.told, length-append seen data')
        (told-lem output_limit (length seen) (length data'));
}

take-Keeps :
    (seen sent : List ℕ) (end : Bool) (o : Output)
    → Keeps seen sent o
    → Keeps seen (sent ++ (cut_output end o).0) (cut_output end o).1
unfolding cut_output
take-Keeps seen sent end o k = record {
  whole = append_assoc sent _ _ ∙ ap (◌++◌ sent) (take-append-drop _ o.pending) ∙ k.whole;
  counted = k.counted;
  told = k.told;
}

pieces-Keeps :
    (es : List Event) (seen sent : List ℕ) (o : Output)
    → Keeps seen sent o
    → Keeps (seen ++ all_printed es) (sent ++ joined (pieces es o).0) (pieces es o).1
unfolding pieces
pieces-Keeps [] seen sent o k = rw (append-nil seen, append-nil sent) k
pieces-Keeps (printed data' ∷ es) seen sent o k =
    subst
      (λ l. Keeps l (sent ++ joined (pieces es (write data' o)).0) (pieces es (write data' o)).1)
      (append_assoc seen data' (all_printed es))
      (pieces-Keeps es (seen ++ data') sent (write data' o) (write-Keeps seen sent data' o k))
pieces-Keeps (taken end ∷ es) seen sent o k =
    subst (λ l. Keeps (seen ++ all_printed es) l (pieces es (cut_output end o).1).1)
      (append_assoc sent (cut_output end o).0 _)
      (pieces-Keeps es seen (sent ++ (cut_output end o).0) (cut_output end o).1
        (take-Keeps seen sent end o k))

abbrev pub without_nuls : List ℕ → List ℕ
without_nuls [] = []
without_nuls (b ∷ bs) = let rest = without_nuls bs in if b == 0 then rest else b ∷ rest

select-nuls : (bs : List ℕ) → select (λ b. not (b == 0)) bs ≡ without_nuls bs
select-nuls [] = refl
select-nuls (b ∷ bs) = elim (Bool-cases (b == 0)) [
  | inl e ↦ rw e (select-nuls bs)
  | inr e ↦ rw e (ap (◌∷◌ b) (select-nuls bs))
]

cleaned_lem :
    (to_valid : List ℕ → List ℕ) (cuts : List (List ℕ))
    → map (cleaned to_valid) cuts ≡ map (λ piece. without_nuls (to_valid piece)) cuts
cleaned_lem to_valid [] = refl
cleaned_lem to_valid (piece ∷ rest) =
    ap (λ text. text ∷ map (cleaned to_valid) rest) (select-nuls (to_valid piece))
    ∙ ap (◌∷◌ (without_nuls (to_valid piece))) (cleaned_lem to_valid rest)

-- Texts and what is pending after them come from this output.
pub record CutFrom (to_valid : List ℕ → List ℕ) (output : List ℕ) (texts : List (List ℕ))
    (o : Output) : Type 0 where
  pub cuts : List (List ℕ)
  pub texts_of_cuts : texts ≡ map (λ piece. without_nuls (to_valid piece)) cuts
  pub all_kept : joined cuts ++ o.pending ≡ take output_limit output
  pub told_dropped : o.dropped ≡ ltb output_limit (length output)

-- However writes and takes are interleaved, the first 256 KiB of what the task printed are cut into
-- pieces, nothing lost, repeated or out of order: the texts taken are the pieces but the last, each
-- made valid UTF-8 by strings.ToValidUTF8 and freed of NULs, and the last one is pending. Output counts
-- as dropped exactly when more than 256 KiB was printed.
pub run_lem :
    (to_valid : List ℕ → List ℕ) (es : List Event)
    → CutFrom to_valid (all_printed es) (run to_valid es no_output).0 (run to_valid es no_output).1
run_lem to_valid es =
    subst (λ r. CutFrom to_valid (all_printed es) r.0 r.1) (sym (run-pieces to_valid es no_output))
      (record {
        cuts = (pieces es no_output).0;
        texts_of_cuts = cleaned_lem to_valid (pieces es no_output).0;
        all_kept = done.whole;
        told_dropped = done.told;
      })
  where
    done : Keeps (all_printed es) (joined (pieces es no_output).0) (pieces es no_output).1
    done =
        pieces-Keeps es [] [] no_output
          (record { whole = refl; counted = omega arith; told = refl })
