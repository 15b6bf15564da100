-- ===== src/Tests/Build.antt =====
-- A server that is built over a concrete disk, and a request to it.
use kwd_server.Thread.{Creation, new_id, left_id}
use kwd_server.Base.{
  ℕ, zero, suc, ◌≡◌, refl, true, false, none, some, List, [], ◌∷◌, ◌>>=◌, Word, word_eq, codes,
  lookup, assign, arith, ◌==◌, ◌||◌, if◌then◌else◌,
}
use kwd_server.Text.{lines_of, get_lines}
use kwd_server.Search.Handle.{is_english, to_lower}
use kwd_server.Reference.{set_ref}
use kwd_server.DictCreator.{
  init, is_stop_word, dict_key, count, add_word, handle_word, handle_lines, is_dots, handle_names,
}
use kwd_server.Cache.{Cache, empty_cache}
use kwd_server.Net.{get_ip, get_port, reuse_ip, reuse_port, binds, listens}
use kwd_server.Pool.{CacheConf, ThreadPool, read_conf}
use kwd_server.Pool.Calls.{start_calls}
use kwd_server.EventLoop.{EventLoop, new_loop}
use kwd_server.EventLoop.Watch.{LoopEvent, run_loop}
use kwd_server.DictCreator.Counts.{corpus}
use kwd_server.DictCreator.Dictionary.{IsDictionary}
use kwd_server.Startup.{Disk, default_module, read_path, read_size, configure, index_of}
use kwd_server.Startup.First.{counted, entries_of}
use kwd_server.Server.{start_server}
use kwd_server.Server.Build.{Around, Built, build}
use kwd_server.Server.Built.{IsFirst, server_built, the_server, build-first}
use kwd_server.Tests.Net.{loopback_inet}
use kwd_server.Tests.Request.{looper}
use kwd_server.Tests.Startup.{chance, dict_words, entries-IsEntry, keys-IsWalk, keys-KeysAreTokens}
use kwd_server.Tests.AnswerDoc.{settings, doc_json}

-- The configuration is there, and the directory has the text "To\nA\na\nto".
abbrev disk : Disk
disk = record {
  files = λ path.
      if word_eq path (codes "../config.json")
      then some (codes "{}")
      else (if word_eq path (codes "../data/f") then some (codes "To\nA\na\nto") else none);
  can_write = λ path. true;
  directory = λ path. some (codes "." ∷ codes "f" ∷ []);
}

counted_words : counted chance default_module disk ≡ dict_words
unfolding init handle_names handle_lines handle_word add_word is_stop_word dict_key count get_lines
    lines_of is_dots is_english to_lower word_eq lookup assign
counted_words = refl

abbrev conf : CacheConf
conf = record {
  cache_path = codes "cache";
  cache_elements_size = 2;
  timer_init_time = 0;
  timer_inter_time = 0;
}

first : IsFirst doc_json chance settings default_module conf disk
unfolding word_eq read_conf configure read_path read_size
first = record {
  parsed = refl;
  configured = refl;
  pool_configured = refl;
  fresh = record {
    opened = refl;
    no_dict = refl;
    no_ref = refl;
    apart = refl;
    writes_dict = refl;
    writes_ref = refl;
    walks_dict = λ key. refl;
    walks_once = λ once. once;
    walks_ref = rw counted_words keys-IsWalk;
    readable = rw counted_words entries-IsEntry;
    tokens = rw counted_words keys-KeysAreTokens;
    small = rw counted_words (omega arith);
  };
  no_cache = refl;
  conf_not_dict = refl;
  conf_not_ref = refl;
  cache_not_dict = refl;
  cache_not_ref = refl;
}

-- All the calls succeed.
abbrev around : Around
around = record {
  chance = chance;
  of_timer = new_id 100;
  garbage = false;
  given = record {
    of_socket = some 3;
    of_reuse_ip = some 0;
    of_reuse_port = some 0;
    of_bind = some 0;
    of_listen = some 0;
  };
  of_epoll = some 4;
  of_event = some 5;
  adds_acceptor = true;
  adds_event = true;
}

abbrev create : ℕ → Creation
create zero = new_id 101
create (suc i) = left_id 77

server_built_example :
    (b : Built doc_json loopback_inet) × (pool : ThreadPool) × (build doc_json loopback_inet around
        none
        (codes "../config.json")
        disk
      ≡ some b)
    × (index_of b.search_module_ptr
        ≡ some (record {
          dict = entries_of chance default_module disk;
          refs = set_ref (λ i. []) (entries_of chance default_module disk);
          limit = default_module.search_word_list_size;
        }))
    × IsDictionary
        (lines_of none)
        (corpus chance.cut disk.files (codes "../data/") (codes "." ∷ codes "f" ∷ []))
        (entries_of chance default_module disk)
    × (b.thread_pool.cache_with_timer.cache_ptr_vec
        ≡ empty_cache 2 ∷ empty_cache 2 ∷ empty_cache 2 ∷ empty_cache 2 ∷ [])
    × (get_ip loopback_inet b.acceptor.addr ≡ codes "127.0.0.1")
    × (get_port loopback_inet b.acceptor.addr ≡ 6688)
    × (b.calls
        ≡ reuse_ip b.acceptor.socket.fd
          ∷ reuse_port b.acceptor.socket.fd
          ∷ binds b.acceptor.socket.fd b.acceptor.addr
          ∷ listens b.acceptor.socket.fd
          ∷ [])
    × (b.looper.looper ≡ new_loop b.acceptor.socket.fd b.looper.looper.event_fd)
    × (b.looper.is_looping ≡ false)
    × ((fd : ℕ)
        → b.looper.epoll fd ≡ (fd == b.looper.looper.event_fd) || (fd == b.acceptor.socket.fd))
    × ((events : List LoopEvent)
        → start_server create events b.thread_pool b.looper.looper ≡ (do
          (ended, left) ← run_loop events b.looper.looper
          some (pool, start_calls create 4 0, ended, left)))
unfolding word_eq
server_built_example =
    server_built doc_json loopback_inet around settings default_module conf disk first
      (codes "../config.json") create refl refl

abbrev server : Built doc_json loopback_inet
server =
    the_server doc_json loopback_inet around settings default_module conf disk first
      (codes "../config.json")
      (build-first doc_json loopback_inet around settings default_module conf disk first
        (codes "../config.json")).0

abbrev text : Word
text = codes "{\"SearchRet\":[\"a\",\"to\"]}at"
