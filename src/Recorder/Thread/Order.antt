-- ===== src/Recorder/Thread/Order.antt =====
-- Samples reach the files in the order in which they were taken, and all of them do.
use generic_target.Base.{
  ◌==◌, Bool-cases, length, length-append, ℕ, ◌+◌, ◌^◌, ◌≤◌, ◌<◌, ◌≡◌, refl, sym, ap, ◌∙◌, inl, inr,
  List, [], ◌++◌, append_assoc, append-nil, arith,
}
use generic_target.Recorder.Files.{Disk}
use generic_target.Recorder.Files.Conserve.{
  IsReliable, recorded, all_before, open_part, recorded-write_buffer, number-write_buffer,
}
use generic_target.Recorder.Thread.{
  System, write, take_buffer, write_files, put_back, Move, write_move, notify, take_move,
  files_move, back_move, Reach, here, next,
}

module _ {ℓ} {A : Type ℓ} where
  -- The files, then the recorder thread's own buffer, then the shared one.
  abbrev pub everything : System A → List A
  everything s = recorded s.writer ++ s.buffer

  pub record Inv (s : System A) : Type ℓ where
    pub order : everything s ≡ s.accepted
    pub room :
        s.writer.current_file_number + length s.writer.values + length s.buffer ≤ length s.accepted

  moved : (f o l b : List A) → (f ++ (o ++ (l ++ b))) ++ [] ≡ (f ++ (o ++ l)) ++ b
  moved f o l b = simp (append_assoc, append-nil)

  returned : (f o l b : List A) → (f ++ (o ++ [])) ++ (l ++ b) ≡ (f ++ (o ++ l)) ++ b
  returned f o l b = simp (append_assoc, append-nil)

module _ {ℓ} {A : Type ℓ} (w n : ℕ) (d : Disk) (reliable : IsReliable d) (hw : 0 < w) where
  write-Inv : (x : List A) (s : System A) → Inv s → Inv (write w x s)
  unfolding write
  write-Inv x s v = elim (Bool-cases (length x == w)) [
    | inl e ↦ rw e (record {
      order =
          sym (append_assoc (recorded s.writer) s.buffer x) ∙ ap (λ (l : List A). l ++ x) v.order;
      room = omega (arith, length-append {ℓ} s.buffer x, length-append {ℓ} s.accepted x, v.room);
    })
    | inr e ↦ rw e (record { order = v.order; room = v.room })
  ]

  take-Inv : (s : System A) → Inv s → Inv (take_buffer s)
  unfolding take_buffer
  take-Inv s v = record {
    order =
        moved (all_before s.writer.current_file_number s.writer.body) (open_part s.writer)
          s.writer.values s.buffer
        ∙ v.order;
    room = omega (arith, length-append {ℓ} s.writer.values s.buffer, v.room);
  }

  files-Inv : (s : System A) → length s.accepted < 2 ^ 32 → Inv s → Inv (write_files w n d s)
  unfolding write_files
  files-Inv s small v = record {
    order =
        ap (λ (l : List A). l ++ s.buffer)
          (recorded-write_buffer w n d s.writer reliable hw (omega (arith, v.room)))
        ∙ v.order;
    room =
        omega
          (arith, number-write_buffer w n d s.writer reliable hw (omega (arith, v.room)), v.room);
  }

  back-Inv : (s : System A) → Inv s → Inv (put_back s)
  unfolding put_back
  back-Inv s v = record {
    order =
        returned (all_before s.writer.current_file_number s.writer.body) (open_part s.writer)
          s.writer.values s.buffer
        ∙ v.order;
    room = omega (arith, length-append {ℓ} s.writer.values s.buffer, v.room);
  }

  -- Nothing that was accepted is forgotten, so the list only grows.
  write-accepted : (x : List A) (s : System A) → length s.accepted ≤ length (write w x s).accepted
  unfolding write
  write-accepted x s = elim (Bool-cases (length x == w)) [
    | inl e ↦ rw e (omega (arith, length-append {ℓ} s.accepted x))
    | inr e ↦ rw e (omega arith)
  ]

  accepted-le : {s t : System A} → Move w n d s t → length s.accepted ≤ length t.accepted
  unfolding take_buffer write_files put_back
  accepted-le {s} (write_move x p) = write-accepted x s
  accepted-le (notify p) = omega arith
  accepted-le _ = omega arith

  Move-Inv : {s t : System A} → length t.accepted < 2 ^ 32 → Inv s → Move w n d s t → Inv t
  Move-Inv {s} small v (write_move x p) = write-Inv x s v
  Move-Inv {s} small v (files_move p) = files-Inv s (unfold write_files in small) v
  Move-Inv {s} small v (take_move p) = take-Inv s v
  Move-Inv {s} small v (back_move p) = back-Inv s v
  Move-Inv {s} small v _ = record { order = v.order; room = v.room }

  pub Reach-Inv : {s : System A} → length s.accepted < 2 ^ 32 → Reach w n d s → Inv s
  Reach-Inv small here = unfold all_before in record { order = refl; room = omega arith }
  Reach-Inv small (next r m) = Move-Inv small (Reach-Inv (omega (arith, accepted-le m)) r) m

  -- Whatever the order of the steps of the writing task, the recorder thread and `Stop`: the values
  -- in the data files, then those of the recorder thread, then those in the shared buffer are the
  -- accepted samples, in the order in which they were accepted. The file system stores a write
  -- whole or not at all, no close of a file fails, and fewer than 2 ^ 32 values have been accepted.
  pub everything-eq-accepted :
      {s : System A} → Reach w n d s → length s.accepted < 2 ^ 32 → everything s ≡ s.accepted
  everything-eq-accepted r small = (Reach-Inv small r).order
