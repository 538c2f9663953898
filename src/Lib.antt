-- ===== src/Lib.antt =====
-- The ARTIK SDK: C modules that give programs on ARTIK boards one interface to the buses, radios
-- and services of the board. A program requests a module by name and calls the functions of its
-- table (inc/*); the functions that do not depend on the platform stand in
-- src/modules/*/artik_*.c, and call os_* functions, of which each platform has its own.
--
-- Parts and files:
--   * ArtikList, with the modules below it: inc/base/artik_list.h, the linked list in which every
--   module keeps its nodes. ArtikList has the operations (add is artik_list_add, and so on) on an
--   explicit heap: a pointer is a number, NULL is 0, and a heap maps addresses to nodes and
--   records the calls of clear and free. ArtikList/Abstract has the lists that it stands for,
--   ArtikList/Chain says when a heap holds one, and Search, Add, Delete, Clear and Copy have the
--   theorems.
--   * Systemio: src/modules/systemio. Each of I2c, Pwm, Spi, Serial, Gpio and Adc is the file
--   artik_*.c of that name. They keep their nodes by artik_list; here they work on the abstract
--   list, which the theorems on ArtikList connect to the heap: by_handle, find and remove
--   (Systemio/Nodes, ArtikList/Abstract) are what artik_list_get_by_handle,
--   artik_list_get_by_check and artik_list_delete_node compute. Systemio/Registry has what these
--   files have in common. The driver (os_i2c.h and its siblings) is a record of functions that
--   the modules take. I2c/Slaves says when two configurations are for one slave, apart from the
--   code's check_exist, and I2c/Calls has the calls in sequence.
--   * Time: src/modules/base/time. Time has the dates and the checks on them, Time/Compare the
--   comparison in artik_time.c, Time/Clock os_time_set_time and os_time_get_time of linux_time.c,
--   and Time/Alarm, with the modules below it, the alarms. The calendar of the C library (timegm,
--   mktime, gmtime) and the clock are records of functions that the operations take; an alarm for
--   a date reads the clock twice.
--   * Loop: src/modules/base/loop/tinyara_loop.c. Loop/Align has the rounding of capacities
--   (DEFINE_ALIGN_POWER2 and align_power2), and Loop/Vector the vectors of pointers
--   (_ptr_vector_append is append, _ptr_vector_del is del), of which Laws and Removal say which
--   lists they stand for. Loop/Callbacks has the additions and removals of callbacks, with a heap
--   for their structures, and Loop/Kinds the timeouts, periodic and idle callbacks side by side.
--   The watches, and what happens when a callback is due, are not modelled.
--   * Manager: src/modules/base/module/linux_module.c. Manager has os_request_api_module
--   (request) and os_release_api_module (release), with the dynamic linker as a record of
--   functions and the list of the libraries it opened and closed; Manager/Valid has the invariant
--   and what the code relies on of the linker, Calls, Release and Again the theorems on single
--   calls, and Histories those on sequences of them. Manager/Table has the table of
--   inc/base/platform/artik_generic_platform.h, Manager/Platform what depends on the board, and
--   Manager/DeviceInfo the text of os_get_device_info. The lock that both operations hold from
--   end to end is left out.
--   * Systemio/Gpio/Linux: src/modules/systemio/gpio/linux_gpio.c, the driver record of
--   Systemio/Gpio filled in for Linux. What the driver did (writes to /sys/class/gpio,
--   descriptors, watches, requests of the loop module) is a list of events, of which the kernel's
--   answers are functions. Sysfs says which pins the writes leave exported, Backed and Pins what
--   each operation does to that, Calls joins it with the GPIO module, and Callbacks counts the
--   references to the loop module. That a release of the loop module would read through NULL, if
--   it could not be requested again, is left out.
--   * Systemio/Pwm/Linux: src/modules/systemio/pwm/linux_pwm.c, the driver record of Systemio/Pwm
--   filled in for Linux, with the descriptors that it keeps open. Descriptors and Leak follow
--   them through a request and a release, Output the writes that turn an output on and off.
--   * Cloud: src/modules/connectivity/cloud/artik_cloud.c. Cloud has what all requests to the
--   REST service have in common, Cloud/Users, Devices, Messages and Registration the operations,
--   Cloud/Calls the table of them and what each is meant to send; Matches, Planned and Laws are
--   the theorems. Cloud/Stream, with Opening and Operations, has the streams over the websocket
--   module and Stream/Calls the calls in sequence; Lists and Search treat the list of nodes as a
--   map, Steps, Effects and Ends the single calls, Laws and Sending what is written between an
--   opening and a closing. The HTTP module, the websocket module and the module manager are
--   records of functions that the operations take; they see what has happened before;
--   Cloud/Served fills in the HTTP module with that of Http. Texts are printed by Base/Formats.
--   * Http: src/modules/connectivity/http/linux_http.c and artik_http.c, the module that Cloud
--   calls. Http has the list of headers and the setup with the Secure Element, Http/Operations
--   the five operations, Response the write function, Certificates ssl_ctx_callback, Calls the
--   table of the module, Meant the options that a call is meant to set; Balance, Laws, Answers
--   and Accepted are the theorems. What libcurl, OpenSSL and the security module return in one
--   request is a record; that libcurl hands over chunks of less than 2^31 bytes is its documented
--   limit.
--
-- Conventions: the result of malloc is an argument, 0 for a failure. none is a fault of the C
-- program, such as an access through a bad pointer, or fuel that ran out; the theorems on loops
-- over a list ask for more fuel than the list has nodes, and show that this is enough.
-- sizeof(artik_list) is 40, as with pointers of 8 bytes. A payload is what a module's node holds
-- behind the artik_list that it starts with. The functions that clear and the callbacks stand for
-- are recorded, not run.
--
-- Not modelled: the calls into the kernel and into libraries (GLib, libuv, OpenSSL,
-- libwebsockets, mosquitto, BlueZ over D-Bus), the C++ bindings, the tests, and third-party code
-- that the repository carries (wpa_supplicant's control interface, the NuttX network utilities).
pub mod Base
pub mod ArtikList
pub mod Systemio
pub mod Time
pub mod Loop
pub mod Manager
pub mod Cloud
pub mod Http
