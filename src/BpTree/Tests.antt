-- ===== src/BpTree/Tests.antt =====
-- Runs of the tree, from an empty file, and the properties at concrete inputs.
use computer_science_notes.Base.{
  ℕ, zero, suc, ◌+◌, ◌*◌, ◌<◌, ◌≤◌, ◌≡◌, refl, sym, ap, subst, List, [], ◌∷◌, map, none, arith,
  true, false, Run, done, exited, out_of_fuel, ◌>>=◌, ℕ_discrete,
}
use computer_science_notes.BpTree.Node.{
  new_node, File, read_node, write_node, get_final_node, shift_up, shift_down, copy_range,
  no_pointer,
}
use computer_science_notes.BpTree.Search.{query, query_node, query_pos, seek, leaf_answer}
use computer_science_notes.BpTree.Insert.{
  build, insert, insert_node, insert_pos, make_room, grow, goes_left, split_parent, split_child,
  split_right, split_file, insert_leaf,
}
use computer_science_notes.BpTree.Remove.Down.{
  remove, remove_node, remove_pos, remove_entry, prepare_found, prepare_missing, replace_separator,
}
use computer_science_notes.BpTree.Remove.Leaves.{
  refill_leaf, refill_leaf_found, cut_last, drop_entry, push_front, push_back, join_leaves,
  pop_front, borrow_left, borrow_left_found, merge_left, merge_left_found, borrow_right,
  merge_right,
}
use computer_science_notes.BpTree.Remove.Inner.{
  refill_inner, borrow_left_inner, merge_left_inner, borrow_right_inner, merge_right_inner,
  join_inner,
}
use computer_science_notes.BpTree.Remove.Roomy.{is_roomy, is_roomy_node}
use computer_science_notes.BpTree.Remove.Entry.{erase}
use computer_science_notes.BpTree.Remove.Index.{remove-IsIndex}
use computer_science_notes.BpTree.Insertion.{insert_absent}
use computer_science_notes.BpTree.Refinement.{
  IsIndex, answer, query-answer, query_place-leaf, insert-IsIndex, build-IsIndex,
}
use computer_science_notes.BpTree.Demo.{
  int_key, countdown, insert_each, first_pointer, query-insert_each, insert_each-IsIndex,
  insert_index, main_prints,
}
use computer_science_notes.BpTree.Remove.Empty.{remove-IsDrained, build-IsDrained}

abbrev empty_file : File
empty_file = record { node = λ offset. new_node; size = 0 }

-- `n` keys from `from` on, each with the pointer 100 above it.
range : ℕ → ℕ → List (ℕ × ℕ)
range from zero = []
range from (suc n) = (from, from + 100) ∷ range (from + 1) n

inserted : ℕ → Run File
unfolding range insert_each build insert insert_node insert_pos make_room grow goes_left
    split_parent split_child split_right split_file insert_leaf read_node write_node get_final_node
    seek shift_up copy_range ℕ_discrete
inserted n = insert_each 9 (range 1 n) (build empty_file)

remove_each : List ℕ → File → Run File
unfolding remove remove_node remove_pos remove_entry prepare_found prepare_missing replace_separator
    refill_leaf refill_leaf_found cut_last drop_entry push_front push_back join_leaves pop_front
    borrow_left borrow_left_found merge_left merge_left_found borrow_right merge_right refill_inner
    borrow_left_inner merge_left_inner borrow_right_inner merge_right_inner join_inner shift_down
    query
remove_each [] f = done f
remove_each (k ∷ ks) f = remove 9 f k >>= remove_each ks

answers : List ℕ → File → List (Run ℕ)
unfolding query query_node query_pos leaf_answer
answers ks f = map (λ k. query 9 f k false) ks

-- Three levels, and keys on both sides of every split.
inserted_are_found :
    (inserted 22 >>= λ f. done (answers (1 ∷ 3 ∷ 4 ∷ 9 ∷ 10 ∷ 22 ∷ 23 ∷ 0 ∷ []) f))
    ≡ done (
        done 101
        ∷ done 103
        ∷ done 104
        ∷ done 109
        ∷ done 110
        ∷ done 122
        ∷ done no_pointer
        ∷ done no_pointer
        ∷ [])
unfolding inserted answers
inserted_are_found = refl

-- Keys go from leaves, with nodes joined on the way.
removed_are_gone :
    (inserted 12 >>= remove_each (5 ∷ 6 ∷ 4 ∷ 12 ∷ []) >>= λ f.
    done (answers (4 ∷ 5 ∷ 6 ∷ 12 ∷ 1 ∷ 7 ∷ 11 ∷ []) f))
    ≡ done (
        done no_pointer
        ∷ done no_pointer
        ∷ done no_pointer
        ∷ done no_pointer
        ∷ done 101
        ∷ done 107
        ∷ done 111
        ∷ [])
unfolding inserted remove_each answers
removed_are_gone = refl

-- The 9 is the root's separator. Its removal leaves it in a leaf, out of reach, and the next removal
-- takes it from there in place of the 8.
removed_is_found :
    (inserted 22 >>= remove_each (9 ∷ 8 ∷ []) >>= λ f. done (answers (9 ∷ 8 ∷ []) f))
    ≡ done (done no_pointer ∷ done 108 ∷ [])
unfolding inserted remove_each answers
removed_is_found = refl

abbrev seven_pairs : List (ℕ × ℕ)
seven_pairs = (1, 101) ∷ (2, 102) ∷ (3, 103) ∷ (4, 104) ∷ (5, 105) ∷ (6, 106) ∷ (7, 107) ∷ []

seven_keys :
    (f : File) × (height : ℕ) × (insert_each 9 seven_pairs (build empty_file) ≡ done f)
    × IsIndex f (insert_index (λ k. none) seven_pairs) height
    × (height < 9)
seven_keys =
    insert_each-IsIndex 9 seven_pairs (build empty_file) (λ k. none) 0
      (build-IsIndex empty_file refl) (omega arith) (omega arith)

query-insert_each_example :
    (f : File) × (insert_each 9 seven_pairs (build empty_file) ≡ done f)
    × ((k : ℕ) → k < 4294967296 → query 9 f k false ≡ done (answer (first_pointer seven_pairs) k))
query-insert_each_example =
    query-insert_each empty_file seven_pairs 9 refl (omega arith) (omega arith)

insert-IsIndex_example :
    (f : File) × (height : ℕ) × (insert 10 seven_keys.0 9 109 ≡ done f)
    × IsIndex f (insert_absent (insert_index (λ k. none) seven_pairs) 9 109) height
    × (height ≤ suc seven_keys.1)
insert-IsIndex_example =
    insert-IsIndex seven_keys.0 (insert_index (λ k. none) seven_pairs) seven_keys.1 10 9 109
      seven_keys.3 (omega (arith, seven_keys.4)) (omega arith)

query-answer_example : query 9 seven_keys.0 5 false ≡ done 105
unfolding insert_index ℕ_discrete
query-answer_example =
    query-answer seven_keys.0 (insert_index (λ k. none) seven_pairs) seven_keys.1 9 5 seven_keys.3
      seven_keys.4 (omega arith)

query_place-leaf_example :
    (leaf : ℕ) × (query 9 seven_keys.0 5 true ≡ done leaf)
    × ((seven_keys.0.node leaf).is_leaf ≡ true)
    × (j : ℕ) × (j < (seven_keys.0.node leaf).key_total)
    × ((seven_keys.0.node leaf).key j ≡ 5)
    × ((seven_keys.0.node leaf).pointer j ≡ 105)
unfolding insert_index ℕ_discrete
query_place-leaf_example =
    query_place-leaf seven_keys.0 (insert_index (λ k. none) seven_pairs) seven_keys.1 9 5 105
      seven_keys.3 seven_keys.4 (omega arith) refl

main_prints_example :
    (f : File) × (insert_each 501 (countdown 500) (build empty_file) ≡ done f)
    × ((i : ℕ) → i < 500 → query 501 f (int_key i) false ≡ done (i * 100))
main_prints_example = main_prints empty_file 500 refl (omega arith)

remove-IsDrained_example : remove 1000 (build empty_file) 5 ≡ out_of_fuel
remove-IsDrained_example =
    remove-IsDrained 1000 (build empty_file) 5 (build-IsDrained empty_file refl)

file_of : Run File → File
file_of (done f) = f
file_of (exited status) = empty_file
file_of out_of_fuel = empty_file

-- Two leaves, of the keys 1 to 3 and 4 to 7.
abbrev two_leaves : File
two_leaves = file_of (insert_each 9 seven_pairs (build empty_file))

two_leaves-IsIndex : IsIndex two_leaves (insert_index (λ k. none) seven_pairs) seven_keys.1
unfolding file_of
two_leaves-IsIndex =
    subst (λ f. IsIndex f (insert_index (λ k. none) seven_pairs) seven_keys.1)
      (sym (ap file_of seven_keys.2)) seven_keys.3

-- The way to the separator 3.
roomy_way : is_roomy 9 two_leaves 3 0 ≡ true
unfolding file_of is_roomy is_roomy_node insert_each build insert insert_node insert_pos make_room
    grow goes_left split_parent split_child split_right split_file insert_leaf read_node write_node
    get_final_node seek shift_up copy_range ℕ_discrete
roomy_way = refl

remove-IsIndex_example :
    (f : File) × (remove 9 two_leaves 3 ≡ done f)
    × IsIndex f (erase (insert_index (λ k. none) seven_pairs) 3) seven_keys.1
remove-IsIndex_example =
    remove-IsIndex two_leaves (insert_index (λ k. none) seven_pairs) seven_keys.1 9 3
      two_leaves-IsIndex (omega arith) roomy_way
