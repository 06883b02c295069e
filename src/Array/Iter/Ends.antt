-- ===== src/Array/Iter/Ends.antt =====
-- The iteration over a hash table from both ends.
use ext_php_rs.Prelude.{
  ℕ, suc, ◌+◌, ◌-◌, ◌<◌, ◌≤◌, Bool, true, false, some, [], ◌∷◌, ◌++◌, List, ◌≡◌, ◌≢◌, sym, ap, ◌∙◌,
  arith, length, drop, All, map, get_elem?, inl, inr, length-append, append_assoc, append-nil,
}
use mathlib.Core.Path.{subst}
use mathlib.Core.List.{map-append}
use ext_php_rs.ArrayKey.{ArrayKey}
use ext_php_rs.Array.Entries.{HashKey}
use ext_php_rs.Array.Zend.{ZendHash, IsLawful, live, entries}
use ext_php_rs.Array.Cursor.{Cursor, IsLawfulCursor, tail}
use ext_php_rs.Array.Iter.{Iter, Step, done, panic, item, new, next, next_back}
use ext_php_rs.Array.Iter.Slots.{
  drop-some, drop-length-append, get_some, length-some, nonempty, append_cons, snoc_cases,
  All-unsnoc, live-some,
}
use ext_php_rs.Array.Iter.Forward.{
  to_key, is_readable, to_item, IsReadable, from_zval-key, type_exists, next_slot, next_end,
}

abbrev pub items : {A : Type 0} → Step A → List A
items done = []
items panic = []
items (item e) = e ∷ []

module _ {V D : Type 0} (z : ZendHash V) (c : Cursor D z) (php85 : Bool) (t : z.Table) where
  -- Calls of `next` and `next_back`, in the order of a schedule; the items from the front, those from
  -- the back in the order of the table, and the iterator that is left.
  unfoldable pub both_ends : List Bool → Iter → List (ArrayKey × V) × List (ArrayKey × V) × Iter
  both_ends [] it = ([], [], it)
  both_ends (true ∷ bs) it =
      let (s, it') = next z c php85 t it in
      let (front, back, it'') = both_ends bs it' in (items s ++ front, back, it'')
  both_ends (false ∷ bs) it =
      let (s, it') = next_back z c php85 t it in
      let (front, back, it'') = both_ends bs it' in (front, back ++ items s, it'')

module _ {V D : Type 0} (z : ZendHash V) (c : Cursor D z) (lc : IsLawfulCursor z c) (php85 : Bool)
    (t : z.Table) (es : List (HashKey × V)) (full : z.slots t ≡ map some es) where
  -- The entries `mid` are between the two ends of an iterator.
  record Between (it : Iter) (pre mid post : List (HashKey × V)) : Type 0 where
    whole : es ≡ pre ++ (mid ++ post)
    front : live (drop it.pos (z.slots t)) ≡ mid ++ post
    count : it.current_num + length mid ≡ it.end_num
    back : mid ≢ [] → it.end_pos + 1 ≡ length pre + length mid
    readable : All IsReadable mid

  live-drop : (n : ℕ) → live (drop n (z.slots t)) ≡ drop n es
  live-drop n = ap (λ ss. live (drop n ss)) full ∙ ap live (drop-some n es) ∙ live-some (drop n es)

  back_end : (it : Iter) → it.end_num ≤ it.current_num → next_back z c php85 t it ≡ (done, it)
  unfolding next_back
  back_end it h = ground arith

  next-Between :
      (it : Iter) (pre mid post : List (HashKey × V)) (k : HashKey) (v : V)
      → Between it pre ((k, v) ∷ mid) post
      → (next z c php85 t it ≡ (
        item (to_key k, v),
        record it { pos = c.move_forward t it.pos; current_num = it.current_num + 1 },
      ))
        × Between
            (record it { pos = c.move_forward t it.pos; current_num = it.current_num + 1 })
            (pre ++ (k, v) ∷ [])
            mid
            post
  next-Between it pre mid post k v b = (
    next_slot z c lc php85 t it k v (mid ++ post) (omega (arith, b.count)) b.front
        ∙ rw b.readable.0,
    record {
      whole = b.whole ∙ sym (append_assoc pre ((k, v) ∷ []) (mid ++ post));
      front = lc.live-move_forward t it.pos ∙ ap tail b.front;
      count = omega (arith, b.count);
      back = λ ne. omega (arith, b.back (cc), length-append pre ((k, v) ∷ []));
      readable = b.readable.1;
    },
  )

  append_mid :
      (pre m post : List (HashKey × V)) (y : HashKey × V)
      → pre ++ ((m ++ y ∷ []) ++ post) ≡ (pre ++ m) ++ y ∷ post
  append_mid pre m post y =
      ap (λ zs. pre ++ zs) (append_assoc m (y ∷ []) post) ∙ sym (append_assoc pre m (y ∷ post))

  live-end :
      (pre m post : List (HashKey × V)) (y : HashKey × V)
      → es ≡ pre ++ ((m ++ y ∷ []) ++ post)
      → live (drop (length pre + length m) (z.slots t)) ≡ y ∷ post
  live-end pre m post y e =
      live-drop (length pre + length m)
      ∙ ap (λ n. drop n es) (sym (length-append pre m))
      ∙ ap (drop (length (pre ++ m))) (e ∙ append_mid pre m post y)
      ∙ drop-length-append (pre ++ m) (y ∷ post)

  retreated : Iter → Iter
  retreated it = record it { end_pos = c.move_backwards t it.end_pos; end_num = it.end_num - 1 }

  back_slot :
      (it : Iter) (k j : HashKey) (v w : V) (fs gs : List (HashKey × V))
      → it.current_num < it.end_num
      → live (drop it.pos (z.slots t)) ≡ (j, w) ∷ gs
      → live (drop it.end_pos (z.slots t)) ≡ (k, v) ∷ fs
      → is_readable k ≡ true
      → next_back z c php85 t it ≡ (item (to_key k, v), retreated it)
  unfolding next_back retreated
  back_slot it k j v w fs gs h e f r =
      let at = lc.at_slot t it.pos j w gs e in
      let end = lc.at_slot t it.end_pos k v fs f in
      let key = from_zval-key k it.current_num (c.current_key t it.end_pos) end.2 in
      ground (arith, at.0, end.1, key, r, type_exists php85 j)

  next_end_pos :
      (it : Iter) (pre m post : List (HashKey × V)) (y : HashKey × V)
      → es ≡ pre ++ ((m ++ y ∷ []) ++ post)
      → it.end_pos ≡ length pre + length m
      → m ≢ []
      → c.move_backwards t it.end_pos + 1 ≡ length pre + length m
  next_end_pos it pre m post y e at ne =
      let whole = ap length e in
      let long = length-append pre ((m ++ y ∷ []) ++ post) in
      let mid = length-append (m ++ y ∷ []) post in
      let last = length-append m (y ∷ []) in
      let some_m = nonempty m ne in
      let p = length pre + length m - 1 in
      let (s, here) = get_some es p (omega arith) in
      let same : it.end_pos ≡ suc p = omega arith in
      let back =
        (lc.move_backwards_suc t p s (ap (λ ss. get_elem? ss p) full ∙ here)
          (subst (λ ss. suc p < length ss) (sym full) (omega (arith, length-some es)))) in
      ap (λ q. c.move_backwards t q + 1) same ∙ ap (λ q. q + 1) back ∙ omega arith

  -- The bounds of `mid` are moved to those of `m`.
  back-Between :
      (it : Iter) (pre m post : List (HashKey × V)) (k : HashKey) (v : V)
      → Between it pre (m ++ (k, v) ∷ []) post
      → (next_back z c php85 t it ≡ (item (to_key k, v), retreated it))
        × Between (retreated it) pre m ((k, v) ∷ post)
  unfolding retreated
  back-Between it pre m post k v b =
      let last = length-append m ((k, v) ∷ []) in
      let at : it.end_pos ≡ length pre + length m =
        (omega (arith, last, b.back (λ e. absurd (omega (arith, ap length e))))) in
      let end : live (drop it.end_pos (z.slots t)) ≡ (k, v) ∷ post =
        (ap (λ n. live (drop n (z.slots t))) at ∙ live-end pre m post (k, v) b.whole) in
      let ((j, w), gs, first) = append_cons m post (k, v) in
      let split = All-unsnoc IsReadable m (k, v) b.readable in
      (
        back_slot it k j v w post gs (omega (arith, b.count, last)) (b.front ∙ first) end split.1,
        record {
          whole = b.whole ∙ ap (λ zs. pre ++ zs) (append_assoc m ((k, v) ∷ []) post);
          front = b.front ∙ append_assoc m ((k, v) ∷ []) post;
          count = omega (arith, b.count, last);
          back = next_end_pos it pre m post (k, v) b.whole at;
          readable = split.0;
        },
      )

  -- What is left of `mid` behind calls that yielded `front` and `back`.
  Covered : ℕ → List (HashKey × V) → List (ArrayKey × V) × List (ArrayKey × V) × Iter → Type 0
  Covered n mid (front, back, it) =
      (left : List (HashKey × V)) × (map to_item mid ≡ front ++ (map to_item left ++ back))
      × (length left ≡ length mid - n)

  back_item :
      (front : List (ArrayKey × V)) (left : List (HashKey × V)) (back : List (ArrayKey × V))
      (x : ArrayKey × V)
      → (front ++ (map to_item left ++ back)) ++ x ∷ []
        ≡ front ++ (map to_item left ++ (back ++ x ∷ []))
  back_item front left back x =
      append_assoc front (map to_item left ++ back) (x ∷ [])
      ∙ ap (λ xs. front ++ xs) (append_assoc (map to_item left) back (x ∷ []))

  back_nil :
      (front : List (ArrayKey × V)) (left : List (HashKey × V)) (back : List (ArrayKey × V))
      → front ++ (map to_item left ++ back) ≡ front ++ (map to_item left ++ (back ++ []))
  back_nil front left back = rw (append-nil back)

  both_ends-Between :
      (bs : List Bool) (it : Iter) (pre mid post : List (HashKey × V))
      → Between it pre mid post
      → Covered (length bs) mid (both_ends z c php85 t bs it)
  unfolding both_ends Covered
  both_ends-Between [] it pre mid post b = (mid, sym (append-nil (map to_item mid)), omega arith)
  both_ends-Between (true ∷ bs) it pre [] post b =
      let ih = both_ends-Between bs it pre [] post b in
      rw (next_end z c lc php85 t it (omega (arith, b.count))) (ih.0, ih.1, omega (arith, ih.2))
  both_ends-Between (true ∷ bs) it pre ((k, v) ∷ mid) post b =
      let step = next-Between it pre mid post k v b in
      let ih = both_ends-Between bs _ (pre ++ (k, v) ∷ []) mid post step.1 in
      rw step.0 (ih.0, ap (λ xs. (to_key k, v) ∷ xs) ih.1, omega (arith, ih.2))
  both_ends-Between (false ∷ bs) it pre mid post b = elim (snoc_cases mid) [
    | inl e ↦
        let ih = both_ends-Between bs it pre mid post b in
        rw (back_end it (omega (arith, b.count, ap length e)))
          (ih.0, ih.1 ∙ back_nil _ ih.0 _, omega (arith, ih.2, ap length e))
    | inr (m, (k, v), e) ↦
        let step = back-Between it pre m post k v (subst (λ xs. Between it pre xs post) e b) in
        let ih = both_ends-Between bs _ pre m ((k, v) ∷ post) step.1 in
        rw step.0 (
          ih.0,
          ap (map to_item) e
              ∙ map-append to_item m ((k, v) ∷ [])
              ∙ ap (λ xs. xs ++ (to_key k, v) ∷ []) ih.1
              ∙ back_item _ ih.0 _ (to_key k, v),
          omega (arith, ih.2, ap length e, length-append m ((k, v) ∷ [])),
        )
  ]

  -- In a hash table without deleted slots, whose string keys are UTF-8, calls of `next` and of
  -- `next_back` in any order take the entries off the two ends: what `next` gave, what is left and what
  -- `next_back` gave make up all the entries in their order, and each call took one while there were any.
  pub both_ends-entries :
      (l : IsLawful z) (bs : List Bool)
      → All IsReadable es
      → (left : List (HashKey × V)) × (map to_item es
          ≡ (both_ends z c php85 t bs (new z c php85 t)).0
            ++ (map to_item left ++ (both_ends z c php85 t bs (new z c php85 t)).1))
        × (length left ≡ length es - length bs)
  unfolding new Covered
  both_ends-entries l bs r =
      let whole : entries z t ≡ es = (ap live full ∙ live-some es) in
      let count = (l.num_of_elements-entries t ∙ ap length whole) in
      both_ends-Between bs (new z c php85 t) [] es [] (record {
        whole = sym (append-nil es);
        front = whole ∙ sym (append-nil es);
        count = omega (arith, l.count-entries t, ap length whole);
        back = λ ne. (ground (arith, count, nonempty es ne));
        readable = r;
      })
