-- ===== src/Server/Built.antt =====
-- The server that is built on a first start.
use kwd_server.Base.{
  ℕ, ◌≡◌, refl, ap, ◌∙◌, true, false, none, some, List, [], ◌∷◌, ◌++◌, ◌>>=◌, arith, Word, codes,
  word_eq, ◌==◌, ◌||◌, Bool-cases, inl, inr,
}
use kwd_server.Thread.{Creation, left_id}
use kwd_server.Json.{JsonCpp}
use kwd_server.Net.{
  Inet, get_ip, get_port, new_inet_addr, Acceptor, Setup, reuse_ip, reuse_port, binds, listens,
  set_up, set_reuse_ip, set_reuse_port, bind, listen, new_acceptor,
}
use kwd_server.EventLoop.{new_loop, put}
use kwd_server.EventLoop.Watch.{
  LoopEvent, run_loop, new_watched, epoll_add, epoll_create, event_fd_create,
}
use kwd_server.Text.{lines_of}
use kwd_server.Reference.{set_ref}
use kwd_server.DictCreator.Counts.{corpus}
use kwd_server.DictCreator.Dictionary.{IsDictionary}
use kwd_server.Pool.Calls.{each, start_call, start_calls}
use kwd_server.Cache.{empty_cache}
use kwd_server.Cache.File.{init}
use kwd_server.Pool.{
  timer_start, ThreadPool, CacheConf, new_pool, init_caches, read_conf, new_cache_with_timer,
  CacheWithTimer,
}
use kwd_server.Pool.Life.{caches, running, caches-made, running-made}
use kwd_server.Startup.{
  Disk, Chance, SearchModule, default_module, configure, conf_text, init_parsed, init_module,
  get_instance, index_of,
}
use kwd_server.Startup.First.{
  IsFresh, first_module, with_ref, prepare-first, entries_of, names_of, entries-IsDictionary,
}
use kwd_server.Startup.Again.{with_ref-other}
use kwd_server.Server.{json_init, start_server}
use kwd_server.Server.Defaults.{new_server-defaults}
use kwd_server.Server.Build.{Around, Built, text_at, build}

-- A first start: the configuration can be read by the search module and by the caches, the
-- dictionary, the index and the file of the caches are not there yet, and the paths are apart.
pub record IsFirst (json : JsonCpp) (chance : Chance) (root : json.Value) (m : SearchModule)
    (conf : CacheConf) (disk : Disk) : Type 0 where
  pub parsed : json.parse (conf_text json disk) ≡ some root
  pub configured : configure json root default_module ≡ some m
  pub pool_configured : read_conf json root ≡ some conf
  pub fresh : IsFresh chance m disk
  pub no_cache : disk.files conf.cache_path ≡ none
  pub conf_not_dict : word_eq m.dict_path (codes "../config.json") ≡ false
  pub conf_not_ref : word_eq m.ref_path (codes "../config.json") ≡ false
  pub cache_not_dict : word_eq m.dict_path conf.cache_path ≡ false
  pub cache_not_ref : word_eq m.ref_path conf.cache_path ≡ false

either_added :
    (fd event_fd acceptor_fd : ℕ)
    → put event_fd true (put acceptor_fd true (λ j. false)) fd
      ≡ (fd == event_fd) || (fd == acceptor_fd)
either_added fd event_fd acceptor_fd = elim (Bool-cases (fd == event_fd)) [
  | inl same ↦ rw same refl
  | inr other ↦ elim (Bool-cases (fd == acceptor_fd)) [
    | inl same ↦ rw (other, same) refl
    | inr apart ↦ rw (other, apart) refl
  ]
]

module _ (json : JsonCpp) (inet : Inet) (around : Around) (root : json.Value) (m : SearchModule)
    (conf : CacheConf) (disk : Disk) (k : IsFirst json around.chance root m conf disk) where
  open json use {Value, parse}

  abbrev pub after : Disk
  after = with_ref around.chance m disk k.fresh

  conf_after : conf_text json after ≡ conf_text json disk
  conf_after =
      ap (λ o. elim o [ none ↦ [] | some text ↦ text ])
        (with_ref-other around.chance m disk k.fresh (codes "../config.json") k.conf_not_dict
          k.conf_not_ref)

  instance_made :
      get_instance json around.chance none disk
      ≡ some (first_module around.chance m disk k.fresh, after)
  unfolding get_instance init_module init_parsed
  instance_made =
      ap (λ o. init_parsed json around.chance o default_module disk) k.parsed
      ∙ (rw (k.configured, prepare-first around.chance m disk k.fresh))

  pub fills :
      init (after.files conf.cache_path) (empty_cache conf.cache_elements_size)
      ≡ some (empty_cache conf.cache_elements_size)
  unfolding init
  fills =
      ap (λ o. init o (empty_cache conf.cache_elements_size))
        (with_ref-other around.chance m disk k.fresh conf.cache_path k.cache_not_dict
            k.cache_not_ref
          ∙ k.no_cache)

  abbrev pub the_caches : CacheWithTimer
  the_caches =
      caches conf after.files (empty_cache conf.cache_elements_size) fills 3 10 around.of_timer
        (λ i. left_id 0) around.garbage

  caches_init :
      init_caches json after.files around.of_timer
        (parse (conf_text json after))
        (new_cache_with_timer 4)
      ≡ some (the_caches, start_call around.of_timer timer_start [] ∷ [])
  unfolding init_caches
  caches_init = rw (
    conf_after,
    k.parsed,
    k.pool_configured,
    caches-made conf after.files (empty_cache conf.cache_elements_size) fills 3 10 around.of_timer
        (λ i. left_id 0) around.garbage,
  )

  abbrev pub the_acceptor : Acceptor × List Setup × List Word
  the_acceptor = new_acceptor inet (codes "127.0.0.1") 6688 around.given

  abbrev pub the_server : Word → Value → Built json inet
  the_server conf_path seen = record {
    server = record {
      conf_path = conf_path;
      root = json_init json (text_at json inet conf_path after) seen;
      server_ip = codes "127.0.0.1";
      server_port = 6688;
      que_size = 10;
      thread_num = 4;
    };
    search_module_ptr = first_module around.chance m disk k.fresh;
    thread_pool = new_pool around.garbage 10 4 the_caches;
    acceptor = the_acceptor.0;
    looper =
        new_watched around.adds_acceptor around.adds_event the_acceptor.0.socket.fd
          (event_fd_create around.of_event).0;
    disk = after;
    threads = start_call around.of_timer timer_start [] ∷ [];
    calls = the_acceptor.1;
    printed =
        the_acceptor.2 ++ ((epoll_create around.of_epoll).1 ++ (event_fd_create around.of_event).1);
  }

  pub build-first :
      (conf_path : Word)
      → (seen : Value) × (build json inet around none conf_path disk
          ≡ some (the_server conf_path seen))
  unfolding build
  build-first conf_path =
      let (seen, made) = new_server-defaults json conf_path (text_at json inet conf_path after) in
      (seen, rw (instance_made, made, caches_init))

  -- On a first start the server is made, over no search module. Its dictionary has exactly the words of
  -- the texts that are no stop words, each once, and its index is the one of this dictionary. Each of
  -- the four workers has an empty cache. The acceptor has asked for its options, to be bound to its
  -- address and to listen, in this order and on its own descriptor, and its address is 127.0.0.1 with
  -- the port 6688, whatever the configuration says. The loop is as new, without connections or pending
  -- work and not looping, with the acceptor and the eventfd in its epoll set, where both can be added.
  -- `StartServer` then starts the four threads and runs the loop.
  pub server_built :
      (conf_path : Word) (create : ℕ → Creation)
      → around.adds_acceptor ≡ true
      → around.adds_event ≡ true
      → (b : Built json inet) × (pool : ThreadPool) × (build json inet around none conf_path disk
          ≡ some b)
        × (index_of b.search_module_ptr
            ≡ some (record {
              dict = entries_of around.chance m disk;
              refs = set_ref around.chance.overrun (entries_of around.chance m disk);
              limit = m.search_word_list_size;
            }))
        × IsDictionary
            (lines_of (disk.files m.stop_words_list_path))
            (corpus around.chance.cut disk.files m.text_to_handle_path (names_of m disk))
            (entries_of around.chance m disk)
        × (b.thread_pool.cache_with_timer.cache_ptr_vec
            ≡ each (λ i. empty_cache conf.cache_elements_size) 4 0)
        × (get_ip inet b.acceptor.addr ≡ codes "127.0.0.1")
        × (get_port inet b.acceptor.addr ≡ 6688)
        × (b.calls
            ≡ reuse_ip b.acceptor.socket.fd
              ∷ reuse_port b.acceptor.socket.fd
              ∷ binds b.acceptor.socket.fd b.acceptor.addr
              ∷ listens b.acceptor.socket.fd
              ∷ [])
        × (b.looper.looper ≡ new_loop b.acceptor.socket.fd b.looper.looper.event_fd)
        × (b.looper.is_looping ≡ false)
        × ((fd : ℕ)
            → b.looper.epoll fd ≡ (fd == b.looper.looper.event_fd) || (fd == b.acceptor.socket.fd))
        × ((events : List LoopEvent)
            → start_server create events b.thread_pool b.looper.looper ≡ (do
              (ended, left) ← run_loop events b.looper.looper
              some (pool, start_calls create 4 0, ended, left)))
  unfolding index_of get_ip get_port new_acceptor new_inet_addr start_server new_watched set_up
      set_reuse_ip set_reuse_port bind listen epoll_add
  server_built conf_path create adds_acceptor adds_event =
      let (seen, built) = build-first conf_path in
      let run =
        running-made conf after.files (empty_cache conf.cache_elements_size) fills 3 10
          around.of_timer create around.garbage in
      (
        the_server conf_path seen,
        running conf after.files (empty_cache conf.cache_elements_size) fills 3 10 around.of_timer
            create around.garbage,
        built,
        refl,
        entries-IsDictionary around.chance m disk k.fresh,
        refl,
        inet.ntoa-addr (codes "127.0.0.1") inet.loopback-IsDotted,
        inet.ntohs-htons 6688 (omega arith),
        refl,
        refl,
        refl,
        λ fd.
            rw (adds_acceptor, adds_event)
              (either_added fd (event_fd_create around.of_event).0 the_acceptor.0.socket.fd),
        λ events. rw run,
      )
