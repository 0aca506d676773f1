-- ===== src/Lib.antt =====
-- amdtop shows the state of AMD graphics cards on a terminal. This library models the front end
-- (tui/) with the ring, the fence, the display and the state page, and of the core library (core/) the handles of the cards, the
-- queries about a card and about the display hardware, the files of debugfs, the tables of the video BIOS
-- and the ioctl helper.
--
-- The parts and their files
--   Base             names that all modules share, the C type int as ℤ, errno values; Base.Text: the
--                    functions of the C library on text, with sscanf for the formats of the program
--   Tui.Device       tui/device.c: the table of graphics cards (InitDeviceContext, AllocDevice,
--                    InitDevice, UpdateDeviceInfo, FreeDeviceContext, getDeviceByIndex)
--   Tui.World        the state of tui/window.h and tui/context.h, the commands over it
--   Tui.Layout       tui/window.c: the arithmetic of InitWinLayout
--   Tui.Screen       tui/window.c: drawing (winclear, WindowClear, mvwprintwc, winframe)
--   Tui.Bar          tui/window.c: the gauges (barCreate, barSetValue, barUpdateLabel)
--   Tui.Dispatch     tui/window.c: the calls of the four windows' handlers (WindowsInit,
--                    WindowsUpdate, WindowsDispatchInput, WindowsUpdateUi, InitWindowContext)
--   Tui.Tabinfo      tui/tabinfo.c: the table of tab pages
--   Tui.MainWindow, Tui.StatusWindow, Tui.TabWindow, Tui.DeviceWindow
--                    the handlers in tui/mainwindow.c, tui/statuswindow.c, tui/tabwindow.c and
--                    tui/devicewindow.c
--   Tui.Main         tui/main.c: the event loop, as a function and as a step relation with signals
--   Tui.Frame        what the commands leave alone; Tui.Invariant: the invariant of the program
--   Tui.Selection    what the keys mean to a user, an abstract view of the windows
--   Tui.Rings        tui/ringinfo.c: the ring page (getRingInfo, calc_ring_count, tabRingInfoInit)
--   Tui.Fences       tui/fenceinfo.c: the fence page, over Core.Debug
--   Tui.Firmware     tui/firmwareinfo.c: the firmware page, over Core.Info
--   Tui.Display      tui/displayinfo.c: the display page; its child modules have the EDID, the properties
--                    of a connector, the query over Core.Mode, and the handlers
--   Tui.State        tui/stateinfo.c: the state page; its child modules have the load of the
--                    processor (getCpuLoad), the clients (update_client_info) and the handlers
--   Core.Heap        xAlloc and xFree of utils/utils.c, with a log of all calls
--   Core.Mode        core/gpumode.h; Core.Mode.Resources, Connectors, Properties, Blobs and Names: the
--                    queries of core/gpumode.c
--   Core.Ioctl       core/drmhelper.c: gpuIoctl
--   Core.Handles     core/gpudevice.c: opening, listing, counting and finding the cards
--   Core.Info        core/gpuinfo.c: sensors, firmware, memory and rings; Core.Info.Blocks: the
--                    driver (gpuQueryDriverInfo) and the image of the video BIOS
--   Core.Debug       core/gpudridebug.c: the rings of a card (amdGpuRingInfo); Core.Debug.Fences and
--                    Clients: amdGpuQueryFenceInfo and amdGpuQueryClientInfo
--   Core.Atombios    core/atombios.c: the ROM header and the tables of the video BIOS
--   Tests            the theorems at concrete inputs
--
-- How they interact. The event loop reads a key. It hands it to the device, the tab, the main and
-- the status window in this order, until one has handled it; without a key it updates the windows
-- that are due; on a resize it computes the layout again and starts all windows anew. The device
-- and the tab window change the selection and restart the main window, which calls the handlers of
-- the selected tab page.
--
-- State and commands. One record World holds the context, the window context, the windows and the
-- globals; a C function that returns an int is a function from World to an int and a World, and
-- `do` stands for the pattern `ret = f(); if (ret) return ret;`. Every call to ncurses and to the
-- system is appended to a log. The answers are the parameter Env, functions of the log, so that a
-- theorem holds for every behaviour of the terminal, the clock and the hardware. A NULL pointer that
-- is followed, a division by zero, and a write behind an array or a buffer, set the flag `fault`; a crash in a
-- handler of a tab page, as the front end calls it, sets `page_fault`; what happens after that is not modelled.
-- The device table has a flag of its own for a write behind its eight slots.
-- In Core the allocator and the kernel are a parameter Sys, functions of the log of all allocations,
-- calls of free and ioctls, or in Core.Handles of all descriptors that were opened and closed. The files of
-- debugfs are lines or bytes. The pages keep their statics in a record or a table of their own, beside the
-- World. The ring and the state page take the answers to their queries as a parameter of the same kind; the
-- fence, the firmware and the display page call the model of the core library, and take the files of debugfs, the kernel,
-- the allocator and the functions of tui/import/edid.h as parameters. The event loop knows the pages only as
-- Env has them.
--
-- Bounds and fuel. A uint32_t is a natural number, with its wrap-around written out. Loops with a
-- counter are recursion on the number of rounds left. The retry of gpuGetModeResouce runs on fuel: a
-- kernel that changes its counts for ever keeps it running for ever, and one unit is enough where they
-- do not change. The event loop runs on rounds; the invariant is proved for the step relation, which
-- has no bound. FreeDeviceContext runs on one round more than there are devices, and each round
-- takes a slot. gpuIoctl runs on rounds too, and one more round than there are interrupted
-- calls is enough.
--
-- What is not modelled: the handlers of the other tab pages (they are part of Env), gpuQueryDeviceInfo
-- of core/gpuinfo.c, which copies a whole struct of the kernel, the readers of sysfs, the text of the
-- device, vendor and driver names, the colour attributes, the size of a display in inches, which is a
-- floating-point number, and the copies of foreign headers under core/import and tui/import and in
-- utils/list.h. A number that sscanf reads is taken to fit the variable behind its conversion, and a word to fit its
-- buffer, except where the code gives a width.
pub mod Base
pub mod Tui
pub mod Core
pub mod Tests
