-- ===== src/Startup/Again.antt =====
-- A later start over the files of the first one.
use kwd_server.Base.{
  ◌≡◌, refl, sym, ap, ◌∙◌, subst, true, false, Option, some, List, Word, word_eq, word_eq_iff, inl,
  inr, Option-cases, arith, ◌>>=◌,
}
use mathlib.Core.Quot
use kwd_server.Search.Handle.View.{IndexView, view, search_view}
use kwd_server.DictCreator.{new_dict_creator, write_file, dict_file}
use kwd_server.Reference.{set_ref}
use kwd_server.Reference.Files.{write_ref, init}
use kwd_server.Reference.Restart.{init_again}
use kwd_server.Startup.{Disk, write_missing, SearchModule, Chance, prepare, index_of, search}
use kwd_server.Startup.First.{
  IsFresh, entries_of, write_files, write-can_write, with_dict, with_ref, first_module,
  with_dict-dict, first_init, prepare-first,
}

-- The index of a module, as what its map gives.
pub view_of : SearchModule → Option IndexView
view_of m = do index ← index_of m; some (view index)

-- What a module answers depends on its index only by this view.
search-view :
    (overrun : List Word) (word : Word) (m : SearchModule)
    → search overrun m word ≡ (do v ← view_of m; search_view overrun word v)
unfolding search view_of search_view
search-view overrun word m = elim (Option-cases (index_of m)) [
  | inl missing ↦ rw missing
  | inr (index, there) ↦ rw there
]

module _ (chance : Chance) (m : SearchModule) (disk : Disk) (k : IsFresh chance m disk) where
  abbrev text : Word
  text = write_ref (chance.walk_ref (set_ref chance.overrun (entries_of chance m disk)))

  apart' : word_eq m.ref_path m.dict_path ≡ false
  apart' =
      ground
        (arith, k.apart, word_eq_iff m.dict_path m.ref_path, word_eq_iff m.ref_path m.dict_path)

  can_write-ref : (with_dict chance m disk k).can_write m.ref_path ≡ true
  can_write-ref = write-can_write m.dict_path _ m.ref_path disk ∙ k.writes_ref

  pub with_ref-other :
      (path : Word)
      → word_eq m.dict_path path ≡ false
      → word_eq m.ref_path path ≡ false
      → (with_ref chance m disk k).files path ≡ disk.files path
  with_ref-other path not_dict not_ref =
      write_files m.ref_path text path (with_dict chance m disk k) can_write-ref
      ∙ (rw (not_ref, write_files m.dict_path _ path disk k.writes_dict, not_dict))

  with_ref-dict :
      (with_ref chance m disk k).files m.dict_path ≡ some (write_file (entries_of chance m disk))
  with_ref-dict =
      write_files m.ref_path text m.dict_path (with_dict chance m disk k) can_write-ref
      ∙ (rw apart' (with_dict-dict chance m disk k))

  with_ref-ref : (with_ref chance m disk k).files m.ref_path ≡ some text
  with_ref-ref =
      write_files m.ref_path text m.ref_path (with_dict chance m disk k) can_write-ref
      ∙ (rw ((word_eq_iff m.ref_path m.ref_path).1 refl))

  later_text :
      (chance' : Chance)
      → dict_file chance'.walk_dict chance'.cut (with_ref chance m disk k).files (
          new_dict_creator
            (with_ref chance m disk k).directory
            m.text_to_handle_path
            m.dict_path
            m.stop_words_list_path)
        ≡ some (write_file (entries_of chance m disk))
  unfolding dict_file
  later_text chance' = rw (with_ref-dict, dict_file)

  -- A start over the files that the first start has left, whatever is not determined then, ends with
  -- the files as they are and a module whose index is the one of the first start, as a dictionary with
  -- what a map gives, in whatever order its entries are; so it answers every query as the module of the
  -- first start, where what is read behind the keys of the query is the same.
  pub later_start :
      (chance' : Chance)
      → (first later : SearchModule) × (after : Disk) × (prepare chance m disk
          ≡ some (first, after))
        × (prepare chance' m after ≡ some (later, after))
        × (view_of later ≡ view_of first)
        × ((overrun : List Word) (word : Word)
            → search overrun later word ≡ search overrun first word)
  unfolding prepare write_missing view_of index_of init
  later_start chance' =
      let entries = entries_of chance m disk in
      let (again, ref_file, built, read, same) =
        init_again chance.walk_ref chance.garbage chance'.garbage chance.overrun chance'.overrun
          entries k.readable k.tokens k.small k.walks_ref in
      let file : ref_file ≡ text = cc (built, first_init chance m disk k) in
      let first = first_module chance m disk k in
      let later : SearchModule = record m {
        ref_creator = some (record {
          dict_path = m.dict_path;
          ref_path = m.ref_path;
          out_put_path = m.ref_path;
          dict = entries;
          ref = again;
        });
      } in
      let one : view_of later ≡ view_of first =
        ap (λ r. some (entries, r, m.search_word_list_size)) (Quot.sound same) in
      (
        first,
        later,
        with_ref chance m disk k,
        prepare-first chance m disk k,
        rw (
          later_text chance',
          with_ref-dict,
          with_ref-ref,
          with_ref-dict,
          (subst
              (λ t.
                init chance'.walk_ref chance'.garbage chance'.overrun (some (write_file entries))
                  (some t)
                ≡ some (entries, again, t))
              file read),
        ),
        one,
        λ overrun word.
            search-view overrun word later
            ∙ ap (λ (o : Option IndexView). do v ← o; search_view overrun word v) one
            ∙ sym (search-view overrun word first),
      )
