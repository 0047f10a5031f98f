-- ===== src/Lib.antt =====
-- Snapclient is a Snapcast client for the ESP32: it connects to a Snapcast server, parses the
-- messages of its protocol, decodes the audio and plays it in step with the other clients.
--
-- The parts and the files that model them, by paths from the repository's root:
--
--   components/libbuffer/buffer.c            Buffer: the reads and writes of a byte buffer.
--   components/lightsnapcast/snapcast.c      Message: messages to and from a byte buffer;
--                                            Message.Settings and Message.Hello those in JSON.
--   main/connection_handler.c                Connection: the bytes of the stream, from lwIP's buffers;
--                                            Connection.Setup finds the server.
--   components/lightsnapcast/
--     snapcast_protocol_parser.c             Parser: messages from a source of bytes; Parser.Codec the
--                                            codec header, Parser.Chunk the chunks of audio and
--                                            Parser.Settings the server's settings.
--   components/lightsnapcast/player.c        Player.Memory: the memory of the chunks; Player.Chunks: the
--                                            queue of chunks and the start of the player; Player.Settings
--                                            and Player.Takeover: the settings on their way to the player's
--                                            task and what it does with them; Player.Clock: the server's
--                                            clock; Player.Channel, Player.Dma and Player.Apll: the I2S
--                                            channel, its buffers and its speed; Player.Timer and
--                                            Player.Sync: when the sound begins; Player.Preload: the bytes
--                                            that fill the buffers before; Player.Playback and
--                                            Player.Silence: the loops that write a chunk; Player.Steer: the
--                                            control of the time; Player.Sound puts these together;
--                                            Player.Stop: the end of the task and of the player.
--   main/main.c                              Client.Handlers: process_data and what it does with each
--                                            message; Client.Dac: the control of the DAC; Client.TimeSync:
--                                            the exchange of times with the server; Client.Greet: the
--                                            greeting of a connection; Client.Flac: the callbacks of the
--                                            FLAC decoder.
--   components/settings_manager/
--     settings_manager.c                     Settings: the settings in the flash memory; Settings.Get the
--                                            reads, Settings.Json the settings as JSON text.
--   components/dsp_processor_settings/
--     dsp_processor_settings.c               DspSettings: single integers in the flash memory; DspSettings.Params
--                                            the parameters of a flow, the switch of the flow and the start,
--                                            with the calls of the processor. The floats are a parameter.
--   components/ui_http_server/
--     ui_http_server.c                       Web.Url: the texts in a URL; Web.Handlers: the requests that
--                                            set, clear and show one setting.
--
-- Each definition has the name of the function that it models, in snake case, and each record the
-- fields of the struct. Base holds what the parts share, Rtos what the tasks use of FreeRTOS, and Examples
-- runs every result on an input.
--
-- The parser takes its bytes through a callback: here an argument `get_byte`, so that a theorem on the
-- parser holds of every source. Connection.Pending gives the source that the client uses,
-- `connection_get_byte`. The parser's results are Parser.Outcome: parsed, restart (a new connection is
-- asked for), halted (`esp_restart`), fault (memory is read or written outside of its bounds, or a
-- division by 0) and waiting (a loop that waits for memory that never comes). Memory is a list of bytes and
-- a byte a number below 256; `char` has no sign and `size_t` 32 bits on the target; an int32_t is its bit
-- pattern. The sums and differences that wrap are written with their modulus.
--
-- Client.Handlers.Process puts the parts together: `process_data` parses one message from the bytes and
-- gives it to its handler, on a state that holds the client's variables, the DAC's request, the exchange of
-- times and the player. What it calls outside of the repository is the record `Services`.
--
-- The loops over a length recurse on it. The loops of the connection run on fuel: `waiting` is a loop
-- that still runs, and the theorems say how much is enough, by the number of segments of a buffer and of
-- calls that time out. The loop that empties the queue of chunks needs one round more than there are chunks.
-- lwIP is a record of operations, `Lwip`, and the allocator a record `Heap`; what they answer is a theorem's
-- hypothesis.
--
-- The tasks are step relations: `Step` is one request of a task, or one round of the task that serves it,
-- and `Reach` the states that any order of them leads to, for the control of the DAC, the settings of the
-- player, the queue of chunks, the clock and the timer. What a task does between taking and giving back a
-- mutex is one step; for the settings of the player each access to them or to their queue is one.
-- FreeRTOS's queues, cJSON, the NVS library, the median filter and the audio HAL are parameters, with the
-- behaviour that their documentation states; the calls of the timer's driver are recorded.
--
-- The player's loops that write to the I2S driver run on fuel as well: the preload needs one round for each
-- chunk, the loop that writes a chunk one for each fragment, the silence one for four bytes, and the cutting
-- of a chunk into buffers one for each frame. The driver is a record `I2s`: it takes every byte once the
-- channel is enabled, and before that as many as there is room for.
--
-- Not modelled: the loop of http_get_task around process_data; the chunks of Opus, which are a parameter of
-- process_data; the volume in software, the filters and the time filter on floating-point numbers; the
-- locks of the power management; the pages and JSON texts of the web interface, and the JSON text of the
-- filters' parameters; the copies of other projects' libraries, and the glue to hardware.
pub mod Base
pub mod Buffer
pub mod Client
pub mod Connection
pub mod DspSettings
pub mod Examples
pub mod Message
pub mod Parser
pub mod Player
pub mod Rtos
pub mod Settings
pub mod Web
