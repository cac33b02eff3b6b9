-- ===== src/Lib.antt =====
-- A verification library for the C programs of program-learning: a byte ring, a list of nodes, the
-- packers of a display driver, the reader of a microphone array with its checker, a pool of threads,
-- the service that stores recordings with that pool, and a recorder, and what they promise.
--
-- The program's parts
--   libutils/fifo.c          a circular buffer of bytes with two wrapping counters
--   libutils/llist.h         a list of linked nodes
--   demo/perfdemo/perfdemo.c five packers that turn a frame into the nine-bit symbols of an SPI
--                            display; four of them are optimised versions of the first
--   speech/src/speecharray.c opens a sound card through tinyalsa, reads frames of twelve channels,
--                            finds the samples in them, and hands on six channels of 16 bits
--   speech/test/findError.c  counts the frames of a recording that are not well-formed
--   demo/SpeechPersistentDemo/threadpool.c a pool of threads that take tasks from a bounded queue;
--                            libutils/handlerthread.c is the same code
--   demo/SpeechPersistentDemo/SpeechPersistent.c stores recordings: its calls make handles and give
--                            them to a pool with one thread, whose tasks write the files, remove
--                            recordings that were broken off, and start an upload for every twenty
--   demo/SpeechPersistentDemo/SpeechDemo.c hands recordings to that service, from /dev/urandom
--   speech/test/speecharraytest.c records the microphone array into a WAV file
-- SpeechPersistent.c is a client of threadpool.c, and Persistent uses ThreadPool; SpeechDemo.c is a
-- client of SpeechPersistent.c, and SpeechDemo/Service fills what SpeechDemo is given. The other parts
-- do not call one another.
--
-- Files
--   Prelude      lists over the native numbers, Boolean tests, `|` and `&` as arithmetic, `int`, text
--   Fifo         libutils/fifo.c. `Fifo` is `STfifoBuffer`, with offsets for pointers; `reset`,
--                `size`, `space`, `write`, `read`, `drain` are `st_fifo_reset` and so on.
--                Fifo/Refine has the invariant and the queue that a FIFO stands for, Fifo/Laws what
--                the operations do to that queue, Fifo/Limits and Fifo/Heap the errors: an empty
--                buffer, more bytes than fit, the two blocks of `st_fifo_alloc` and `st_fifo_free`.
--   Llist        libutils/llist.h, its functions under their names, on a memory that gives the next
--                node of each; Llist/Chain has the nodes in their order
--   Spi/Symbols  the reference: `pack` cuts nine-bit symbols into bytes, `unpack` reads them again
--   Spi/Writer   `write_lcm_command`, `write_lcm_data`, `filling_spi_send_display_data`; a sink is
--                the send buffer with the count of its bits. Spi/Writer/Holds says which symbols a
--                sink holds, Spi/Writer/Frame follows a whole frame.
--   Spi/Groups   `fill_header_withnop`, `fill_header_withnop1`, `fill_data_withnop` and
--                `filling_spi_send_display_data2`, `3` and `4`, whose loops send eight bytes of
--                pixels as nine. Spi/Groups/Faults has those that send other symbols, and
--                Spi/Groups/InPlace is `filling_spi_send_display_data1`, which nothing calls.
--   SpeechArray  speech/src/speecharray.c: `parse_data_int32` and `skip_data` are
--                `parseData_INT32` and `skipData` on the words of the buffer. SpeechArray/Format
--                has the format by itself, SpeechArray/Over the in-place writes, SpeechArray/Parse
--                and SpeechArray/Skip the two functions against the format. SpeechArray/Reader is
--                `SpeechArrayRead`; `pcm_read` is a parameter of it, with a state of the device.
--                SpeechArray/Reader/Keep follows the end of a call, SpeechArray/Reader/Plain a
--                call on a stream that starts with sound; SpeechArray/Reader/First is
--                `SpeechArrayRead1`. SpeechArray/Device is `speechArrayOpen` and
--                `speechArrayClose`, with what tinyalsa, `malloc` and pthread answer as
--                parameters; SpeechArray/Device/Holding follows what they hold.
--                SpeechArray/Samples has streams of whole samples, SpeechArray/Reader/Steady a
--                handle between two calls, SpeechArray/Reader/Stream many calls on such a stream,
--                and SpeechArray/Session the three functions together.
--   FrameCheck   speech/test/findError.c: `check` is `main` on the words of a file, `check_loop` its
--                loop. FrameCheck/Counts is about any file, FrameCheck/Clean about good ones.
--   Recorder     speech/test/speecharraytest.c: `parse_options`, `format_of`, `capture` and
--                `header_of` are the parts of `main`. A round of `capture` has what the read and the
--                write returned. Recorder/Capture is about the loop, Recorder/Header about the header.
--                Recorder/Program is `main` with the file that it writes, `record_wav`; Recorder/File
--                follows that file, and Recorder/Sounds reads it back.
--   ThreadPool   demo/SpeechPersistentDemo/threadpool.c: `add_task` is `threadpool_add_task`;
--                `take_task`, `wake_up`, `begin_work` and `end_work` are the parts of
--                `threadpool_thread` under its locks, `start_threads`, `is_short`, `is_idle` and
--                `ask_to_end` those of `admin_thread`. ThreadPool/Queue has the ring of tasks,
--                ThreadPool/System the turns of all threads in any order, ThreadPool/Moves what a
--                turn changes, ThreadPool/Safety what all turns keep. ThreadPool/Waiting has the
--                condition variables, who sleeps and who is woken: ThreadPool/Waiting/Keeps, Shut
--                and Awake for a fixed number of threads, Stalled and Reached for another.
--                ThreadPool/Life is `threadpool_create` with its failures, `threadpool_free`,
--                `threadpool_destroy` and `is_thread_alive`, and ThreadPool/Life/Ends how they end.
--   Files        the paths and the removal of files in SpeechPersistent.c: `concat_path_file`,
--                `concat_subpath_file`, `remove_file`, `rmDir` as `rm_dir`. What the file system
--                answers is a tree. Files/Path, Files/Order, Files/Status and Files/Folder are about
--                them.
--   Persistent   the rest of SpeechPersistent.c. A `World` has its global variables, a heap of
--                blocks, the pool, and the calls made so far; a `System` answers each call from
--                those before it. Persistent/Names is `initPath`, `getIDbytime` and the names of
--                files, Persistent/Tasks `StartTask`, `StopTask`, `ProcessTask`, `UploadTask`,
--                Persistent/Service `Init`, `speechStart`, `speechProcess`, `speechStop`, `unInit`
--                and `work`, a round of the pool's thread. Persistent/Heap has the laws of the
--                heap; Persistent/Start, Persistent/Writing with Persistent/Saving, and
--                Persistent/Stop follow a task each, Persistent/Requests `speechProcess`,
--                Persistent/Rotation the count and the uploads, Persistent/Ids the ids;
--                Persistent/Session, Persistent/Joining and Persistent/Order put the calls, the
--                queue and the thread together, and Persistent/Turns lets a caller and the thread
--                take turns in any order.
--   SpeechDemo   demo/SpeechPersistentDemo/SpeechDemo.c: `speech_process_interrupt`,
--                `speech_process_success` and `main` are its functions over what they call, an
--                `Env`. SpeechDemo/Passes has its sessions as lists of what is asked for,
--                SpeechDemo/Buffer and SpeechDemo/Sessions follow the program on its buffer,
--                SpeechDemo/Watched keeps a record beside the state, SpeechDemo/Hands has what is handed
--                on of what was read, and SpeechDemo/Service is
--                about the calls of the service as such an `Env`.
--
-- Numbers. A byte is below 256 and a word below 2 ^ 32; `u8`, `u32`, `sub_u32` and `int32` write the
-- wrap-around out. Memory is that of a little-endian machine. An access out of bounds, a use of NULL or
-- of a block that was released, a second release of a block, and a `memcpy` whose two parts overlap,
-- give `none`. The counts of findError.c are `int`, and out of its range they are a fault.
--
-- Fuel. The loops of `st_fifo_write` and `st_fifo_read` take a round per byte at most once the FIFO
-- is valid, so the count of bytes and one is enough; the results below give the value, not only
-- what holds of it. The loops of `parseData_INT32` and `skipData` go on by a word at least, so a
-- quarter of the length is enough. A call of `SpeechArrayRead` or `SpeechArrayRead1` needs a round
-- for each refused read and one more. The loop of findError.c takes a word at least, so a round for
-- each word and one more is enough, and `llist_reverse_order` takes a round for each node. `digits`
-- prints numbers of up to twenty digits. `remove_file` goes down the tree of answers, and all other
-- loops go down a list.
--
-- Not modelled: demo/perfdemo's `main` and its clock; a negative count of bytes in fifo.c; the
-- copies of tinyalsa under speech/ and of libutils/list.h; libutils/dprintf.c, which prints; the
-- other programs under speech/test; a file of findError.c with a part of a word at its end. Of the
-- pool, `pthread_create` succeeds, and a turn under `pool->lock` is not interrupted, though
-- `threadpool_destroy` does not take that lock; while it runs no worker ends for want of work. In
-- both reads the lock, the printing and the dump of the raw data are left out; a count of bytes that
-- is no multiple of four is outside the model. In SpeechPersistent.c printing is left out, `strdup`
-- and `vasprintf` have memory, a new block has an address that no other had, and the thread of
-- `UploadTask` runs as a whole, at any time.
pub mod Prelude
pub mod Fifo
pub mod Spi
pub mod SpeechArray
pub mod ThreadPool
pub mod Files
pub mod Persistent
pub mod FrameCheck
pub mod Llist
pub mod Recorder
pub mod SpeechDemo
