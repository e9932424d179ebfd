-- ===== src/Mr/Agreement.antt =====
-- src/mr against src/main/mrsequential.go, over a sort of the package sort and the functions of an
-- application.
use spring.Common.{
  ℕ, zero, suc, ◌+◌, ◌<◌, ◌≤◌, ◌%◌, ◌==◌, ltb, leb, ◌&&◌, true, false, List, [], ◌++◌, some, Bytes,
  if◌then◌else◌, ◌≡◌, refl, sym, ap, ◌∙◌, arith, Bool-cases, inl, inr,
}
use native.Mathlib.Nat.{mod-lt}
use mathlib.Core.List.{append-nil, Perm, Permᴰ}
use spring.Mr.Worker.{KeyValue, Json, ihash, decode_files, do_reduce, groups, reduce_groups}
use spring.Mr.Sequential.{is_sorted, sequential, distributed, reduce_phase, files_of}
use spring.Mr.Grouping.{share}
use spring.Mr.Lines.{values, lines, line, lines-append}
use spring.Mr.Reduced.{lines-groups, line-perm, values-perm}
use spring.Mr.Texts.{all_text}
use spring.Mr.Shares.{pairs_of, accumulate_lem, pairs_of-perm, map_phase_lem, values-share}

-- What the package sort documents of `sort.Sort`, and a reduce function that looks at its values as
-- a collection without an order.
module _ (sort : List KeyValue → List KeyValue) (reducef : Bytes → List Bytes → Bytes)
    (sort-IsSorted : (kvs : List KeyValue) → is_sorted (sort kvs) ≡ true)
    (sort-perm : (kvs : List KeyValue) → Perm (sort kvs) kvs)
    (any_order : (k : Bytes) (vs ws : List Bytes) → Perm vs ws → reducef k vs ≡ reducef k ws) where
  -- One line for each key of the input.
  lines-sorted :
      (k : Bytes) (kvs : List KeyValue)
      → lines k (reduce_groups reducef (groups (sort kvs))) ≡ line reducef k (values k kvs)
  lines-sorted k kvs =
      lines-groups reducef k (sort kvs) (sort-IsSorted kvs)
      ∙ line-perm reducef k (any_order k) (values k (sort kvs)) (values k kvs)
          (values-perm k (sort-perm kvs))

  pub sequential-lines :
      (mapf : Bytes → Bytes → List KeyValue) (files : List (Bytes × Bytes)) (k : Bytes)
      → lines k (sequential sort mapf reducef files)
        ≡ line reducef k (values k (pairs_of mapf files))
  unfolding sequential
  sequential-lines mapf files k =
      ap (λ l. lines k (reduce_groups reducef (groups (sort l)))) (accumulate_lem mapf files [])
      ∙ lines-sorted k (pairs_of mapf files)

  -- The line of task `i` and that of the tasks behind it.
  line-joined :
      (k : Bytes) (vs : List Bytes) (h i m : ℕ)
      → line reducef k (if h == i then vs else [])
          ++ (if leb (i + 1) h && ltb h (i + 1 + m) then line reducef k vs else [])
        ≡ (if leb i h && ltb h (i + suc m) then line reducef k vs else [])
  unfolding line
  line-joined k vs h i m = elim (Bool-cases (h == i)) [
    | inl e ↦
        (let above : (leb (i + 1) h && ltb h (i + 1 + m)) ≡ false = ground arith in
          let here : (leb i h && ltb h (i + suc m)) ≡ true = ground arith in
          rw (e, above, here) (append-nil (line reducef k vs)))
    | inr e ↦
        (let moved : (leb (i + 1) h && ltb h (i + 1 + m)) ≡ (leb i h && ltb h (i + suc m)) =
            ground arith in
          rw (e, moved) refl)
  ]

  -- The reduce tasks from `i` on end, and write the line of key `k` if its task is one of them.
  reduce_phase-lines :
      (json : Json) (outs : List (List (ℕ × List Bytes))) (sum32 : Bytes → ℕ) (n : ℕ)
      (kvs : List KeyValue)
      → ((i : ℕ) → i < n → decode_files json (files_of i outs) ≡ some (share sum32 n i kvs))
      → (i m : ℕ) → i + m ≤ n
      → (out : List (Bytes × Bytes)) × (reduce_phase json sort reducef outs i m ≡ some out)
        × ((k : Bytes)
            → lines k out ≡ (
                if leb i (ihash sum32 k % n) && ltb (ihash sum32 k % n) (i + m)
                then line reducef k (values k kvs)
                else []))
  unfolding reduce_phase do_reduce lines
  reduce_phase-lines json outs sum32 n kvs reads i zero l = ([], refl, λ k. ground arith)
  reduce_phase-lines json outs sum32 n kvs reads i (suc m) l =
      let part = reduce_groups reducef (groups (sort (share sum32 n i kvs))) in
      let (rest, e, later) =
        reduce_phase-lines json outs sum32 n kvs reads (i + 1) m (omega arith) in
      (
        part ++ rest,
        rw (reads i (omega arith), e) refl,
        λ k.
            rw
              (
                lines-append k part rest,
                lines-sorted k (share sum32 n i kvs),
                values-share sum32 n i k kvs,
                later k,
              )
              (line-joined k (values k kvs) (ihash sum32 k % n) i m),
      )

  -- Over a sort of `ByKey`, a reduce function that gives the same for the same values in any order,
  -- and an encoding that gives back the pairs of strings in valid UTF-8, where there is a reduce
  -- task and all the keys and values of the map function on the input are valid UTF-8: a job in
  -- which each task is committed once ends without a panic or a failure to decode, whatever the
  -- hash is and whatever the order in which the map tasks commit, and the files mr-out-0 to
  -- mr-out-(n - 1) together hold, for every key, the same lines as mr-out-0 of mrsequential.
  pub distributed_lem :
      (json : Json)
      → ((kv : KeyValue)
          → json.is_text kv.key ≡ true
          → json.is_text kv.value ≡ true
          → json.decode (json.encode kv) ≡ some kv)
      → (sum32 : Bytes → ℕ) (n : ℕ) (mapf : Bytes → Bytes → List KeyValue)
        (files committed : List (Bytes × Bytes))
      → 0 < n
      → Permᴰ committed files
      → all_text json (pairs_of mapf committed) ≡ true
      → (out : List (Bytes × Bytes)) × (distributed json sort sum32 n mapf reducef committed
          ≡ some out)
        × ((k : Bytes) → lines k out ≡ lines k (sequential sort mapf reducef files))
  unfolding distributed
  distributed_lem json decode-encode sum32 n mapf files committed pos_n p text =
      let (outs, e, reads) = map_phase_lem json decode-encode sum32 n mapf committed pos_n text in
      let (out, e', written) =
        reduce_phase-lines json outs sum32 n (pairs_of mapf committed) reads 0 n (omega arith) in
      (
        out,
        rw (e, e') refl,
        λ k.
            let bound = mod-lt (ihash sum32 k) pos_n in
            let all : (leb 0 (ihash sum32 k % n) && ltb (ihash sum32 k % n) (0 + n)) ≡ true =
              ground (arith, bound) in
            written k
            ∙ (rw all (
                line-perm reducef k (any_order k) (values k (pairs_of mapf committed))
                  (values k (pairs_of mapf files)) (values-perm k (pairs_of-perm mapf p))))
            ∙ sym (sequential-lines mapf files k),
      )
